-- ===== src/Select/Specials.antt =====
-- `RequiredProviders` of select_parser.rs: the providers that an expression reads, and of the values
-- of a request and its response those that it reads. A `u16` of flags is its bits, lowest first.
use Prim.Native.String.{String}
use text.Mathlib.Text.{◌==◌ as same_text}
use pewpew.Prelude.{
  ℕ, Bool, true, false, ◌&&◌, ◌||◌, not, Option, none, some, [], ◌∷◌, ◌==◌, if◌then◌else◌,
}
use pewpew.BtreeMap.{Order, BtreeMap, upsert}

abbrev pub Flags : Type 0
Flags = ℕ → Bool

abbrev pub no_flags : Flags
no_flags i = false

abbrev pub flag : ℕ → Flags
flag k i = i == k

-- `|`, `&` with a mask before it, and `^`.
abbrev pub bit_or : Flags → Flags → Flags
bit_or a b i = a i || b i

abbrev pub masked : Flags → Flags → Flags
masked mask a i = mask i && a i

abbrev pub bit_xor : Flags → Flags → Flags
bit_xor a b i = if a i then not (b i) else b i

-- `!= 0`.
unfoldable pub is_not_zero : Flags → Bool
is_not_zero a =
    a 0
    || a 1
    || a 2
    || a 3
    || a 4
    || a 5
    || a 6
    || a 7
    || a 8
    || a 9
    || a 10
    || a 11
    || a 12
    || a 13
    || a 14
    || a 15

abbrev pub request_startline : Flags
request_startline = flag 2

abbrev pub request_headers : Flags
request_headers = flag 1

abbrev pub request_headers_all : Flags
request_headers_all = flag 11

abbrev pub request_body : Flags
request_body = flag 0

abbrev pub request_method : Flags
request_method = flag 10

abbrev pub response_startline : Flags
response_startline = flag 5

abbrev pub response_headers : Flags
response_headers = flag 4

abbrev pub response_headers_all : Flags
response_headers_all = flag 12

abbrev pub response_body : Flags
response_body = flag 3

abbrev pub response_status : Flags
response_status = flag 8

abbrev pub for_each : Flags
for_each = flag 6

abbrev pub stats : Flags
stats = flag 7

abbrev pub request_url : Flags
request_url = flag 8

abbrev pub error : Flags
error = flag 9

abbrev pub request_all : Flags
request_all = bit_or request_startline (
    bit_or request_headers
      (bit_or request_headers_all (bit_or request_body (bit_or request_url request_method))))

abbrev pub response_all : Flags
response_all =
    bit_or response_startline
      (bit_or response_headers (bit_or response_headers_all (bit_or response_body response_status)))

-- The flags of a name, where it is one of the special ones.
unfoldable pub special_of : String → Option Flags
special_of s =
    if same_text s "request.start-line"
    then some request_startline
    else (if same_text s "request.headers"
        then some request_headers
        else (if same_text s "request.headers_all"
            then some request_headers_all
            else (if same_text s "request.body"
                then some request_body
                else (if same_text s "request.method"
                    then some request_method
                    else (if same_text s "request.url"
                        then some request_url
                        else (if same_text s "request"
                            then some request_all
                            else (if same_text s "response.start-line"
                                then some response_startline
                                else (if same_text s "response.headers"
                                    then some response_headers
                                    else (if same_text s "response.headers_all"
                                        then some response_headers_all
                                        else (if same_text s "response.body"
                                            then some response_body
                                            else (if same_text s "response"
                                                then some response_all
                                                else (if same_text s "response.status"
                                                    then some response_status
                                                    else (if same_text s "stats"
                                                        then some stats
                                                        else (if same_text s "for_each"
                                                            then some for_each
                                                            else (if same_text s "error"
                                                            then some error
                                                            else none)))))))))))))))

pub record RequiredProviders (Marker : Type 0) : Type 0 where
  pub inner : BtreeMap String Marker
  pub special : Flags
  pub where_special : Flags
  pub is_where : Bool

module _ {Marker : Type 0} (o : Order String) where
  unfoldable pub new : RequiredProviders Marker
  new = record { inner = []; special = no_flags; where_special = no_flags; is_where = false }

  unfoldable pub insert_inner : String → Marker → BtreeMap String Marker → BtreeMap String Marker
  insert_inner s marker inner = upsert o s (λ _. marker) marker inner

  unfoldable pub add_special :
      Option Flags → String → Marker → RequiredProviders Marker → RequiredProviders Marker
  unfolding insert_inner
  add_special none s marker p = record p { inner = insert_inner s marker p.inner }
  add_special (some flags) s marker p =
      if p.is_where
      then record p { where_special = bit_or p.where_special flags }
      else record p { special = bit_or p.special flags }

  unfoldable pub insert : String → Marker → RequiredProviders Marker → RequiredProviders Marker
  unfolding add_special special_of
  insert s marker p = add_special (special_of s) s marker p

  unfoldable pub extend_inner :
      BtreeMap String Marker → BtreeMap String Marker → BtreeMap String Marker
  unfolding insert_inner
  extend_inner inner [] = inner
  extend_inner inner ((s, marker) ∷ other) = extend_inner (insert_inner s marker inner) other

  -- Both fields take the `special` of the other.
  unfoldable pub extend :
      RequiredProviders Marker → RequiredProviders Marker → RequiredProviders Marker
  unfolding extend_inner
  extend p other = record p {
    special = bit_or p.special other.special;
    where_special = bit_or p.where_special other.special;
    inner = extend_inner p.inner other.inner;
  }

  unfoldable pub is_empty : RequiredProviders Marker → Bool
  unfolding is_not_zero
  is_empty p = not (is_not_zero p.special) && elim p.inner [ [] ↦ true | _ ∷ _ ↦ false ]
