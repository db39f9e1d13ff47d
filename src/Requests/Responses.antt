-- ===== src/Requests/Responses.antt =====
-- src/request/response_handler.rs: the fields of the response that are given to the expressions, and
-- the choice of the provides whose where clause holds. What the response has is a parameter, and a
-- where clause is the test that its evaluation is.
pub mod Fields
pub mod Needed
use pewpew.Prelude.{
  ℕ, suc, Bool, true, false, ◌&&◌, ◌||◌, Option, none, some, List, [], ◌∷◌, if◌then◌else◌,
}
use pewpew.Select.Expression.{Result, ok, err, ◌>>=◌}
use pewpew.Select.Specials.{
  Flags, flag, bit_or, masked, bit_xor, is_not_zero, response_startline, response_headers,
  response_headers_all, response_body, stats,
}

-- The values of a response.
pub record Response (V : Type 0) : Type 0 where
  pub start_line : V
  pub headers : V
  pub headers_all : V

-- The fields of `response` in the template values, and the flags of those that were added.
pub record Added (V : Type 0) : Type 0 where
  pub response_fields_added : Flags
  pub start_line : Option V
  pub headers : Option V
  pub headers_all : Option V

-- Whether a field is needed and has not been added, as the code tests it.
unfoldable pub is_missing : Flags → Flags → Flags → Bool
unfolding is_not_zero
is_missing field bitwise added = is_not_zero (bit_xor (masked field bitwise) (masked field added))

-- Whether the where clause is left for later, since it needs the body or the statistics.
unfoldable pub is_later : Flags → Bool
unfolding is_not_zero
is_later precheck_rr_providers =
    is_not_zero (masked response_body precheck_rr_providers)
    || is_not_zero (masked stats precheck_rr_providers)

-- What `handle` begins with.
unfoldable pub first_added : {V : Type 0} → Added V
first_added = record {
  response_fields_added = bit_or (flag 0) (bit_or (flag 1) (flag 2));
  start_line = none;
  headers = none;
  headers_all = none;
}

module _ {V : Type 0} (r : Response V) where
  unfoldable pub add_start_line : Flags → Added V → Added V
  unfolding is_missing
  add_start_line bitwise a =
      if is_missing response_startline bitwise a.response_fields_added
      then record a {
        response_fields_added = bit_or a.response_fields_added response_startline;
        start_line = some r.start_line;
      }
      else a

  unfoldable pub add_headers : Flags → Added V → Added V
  unfolding is_missing
  add_headers bitwise a =
      if is_missing response_headers bitwise a.response_fields_added
      then record a {
        response_fields_added = bit_or a.response_fields_added response_headers;
        headers = some r.headers;
      }
      else a

  unfoldable pub add_headers_all : Flags → Added V → Added V
  unfolding is_missing
  add_headers_all bitwise a =
      if is_missing response_headers_all bitwise a.response_fields_added
      then record a {
        response_fields_added = bit_or a.response_fields_added response_headers_all;
        headers_all = some r.headers_all;
      }
      else a

  -- The body itself is added later.
  unfoldable pub add_body : Flags → Added V → Added V
  unfolding is_missing
  add_body bitwise a =
      if is_missing response_body bitwise a.response_fields_added
      then record a { response_fields_added = bit_or a.response_fields_added response_body }
      else a

  unfoldable pub handle_response_requirements : Flags → Added V → Added V
  unfolding add_start_line add_headers add_headers_all add_body
  handle_response_requirements bitwise a =
      add_body bitwise (add_headers_all bitwise (add_headers bitwise (add_start_line bitwise a)))

  module _ {E : Type 0} (precheck_rr_providers rr_providers : Flags) where
    unfoldable pub is_included : Added V → (Added V → Result E Bool) → Result E Bool
    unfolding is_later
    is_included a execute_where =
        if is_later precheck_rr_providers then ok true else execute_where a

    -- The indexes, from one on, of the outgoing ones whose where clause holds, each of which has the
    -- fields added that are needed.
    unfoldable pub included_from :
        ℕ → List (Added V → Result E Bool) → Added V → Result E (List ℕ × Added V)
    unfolding is_included handle_response_requirements
    included_from i [] a = ok ([], a)
    included_from i (execute_where ∷ outgoing) a = do
      b ← is_included a execute_where
      (rest, a') ←
          included_from (suc i) outgoing
            (if b then handle_response_requirements rr_providers a else a)
      ok (if b then i ∷ rest else rest, a')

    -- `ResponseHandler::handle`, up to whether the body is to be parsed.
    unfoldable pub handle : List (Added V → Result E Bool) → Result E ((List ℕ × Added V) × Bool)
    unfolding included_from first_added handle_response_requirements
    handle outgoing = do
      (indexes, a) ←
          included_from 0 outgoing (handle_response_requirements precheck_rr_providers first_added)
      ok ((indexes, a), is_not_zero (masked response_body a.response_fields_added))
