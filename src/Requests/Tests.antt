-- ===== src/Requests/Tests.antt =====
-- An endpoint that provides two channels of two and three slots, and a response.
use Prim.Native.String.{String}
use pewpew.Prelude.{none, if◌then◌else◌, ℕ, Bool, true, false, ◌==◌, ◌≡◌, refl, some, List, [], ◌∷◌}
use pewpew.BtreeMap.{Order}
use pewpew.Select.Expression.{Result, ok, err}
use pewpew.Select.Specials.{
  is_not_zero, response_headers, response_startline, request_url, response_status, special_of, new,
  add_special, insert, extend,
}
use pewpew.Requests.Responses.{
  Response, Added, is_missing, add_start_line, add_headers, add_headers_all, add_body,
  handle_response_requirements, is_later, is_included, included_from, first_added, handle,
}
use pewpew.Requests.Responses.Needed.{Holds, HasNeeded, handle-HasNeeded}
use pewpew.Requests.Streams.{add_start_stream}
use pewpew.Requests.Limits.{
  add_slots, slots_of, count_full, tune, LimitFn, tuned, limit_for, call, calls,
}

abbrev first : LimitFn
first = tuned (some 7) (record { multiplier = 1; all_full_count = 0 })

abbrev polls : List (List (ℕ × ℕ) × ℕ)
polls =
    ((0, 2) ∷ (1, 3) ∷ [], 2)
    ∷ ((0, 2) ∷ (1, 3) ∷ [], 4)
    ∷ ((2, 2) ∷ (3, 3) ∷ [], 4)
    ∷ ((2, 2) ∷ (3, 3) ∷ [], 3)
    ∷ ((2, 2) ∷ (3, 3) ∷ [], 3)
    ∷ []

limits_of_polls : calls first polls ≡ 4 ∷ 6 ∷ 3 ∷ 3 ∷ 2 ∷ []
unfolding calls call slots_of add_slots count_full tune limit_for
limits_of_polls = refl

abbrev three : Response ℕ
three = record { start_line = 1; headers = 2; headers_all = 3 }

-- A where clause that wants the headers, and one that does not hold.
abbrev clauses : List (Added ℕ → Result ℕ Bool)
clauses = (λ a. elim a.headers [ none ↦ err 404 | some h ↦ ok (h == 2) ]) ∷ (λ a. ok false) ∷ []

abbrev summary : Result ℕ ((List ℕ × Added ℕ) × Bool) → List ℕ
summary (err e) = e ∷ []
summary (ok ((indexes, a), parses)) =
    (elim a.start_line [ none ↦ 0 | some v ↦ v ])
    ∷ (elim a.headers [ none ↦ 0 | some v ↦ v ])
    ∷ (elim a.headers_all [ none ↦ 0 | some v ↦ v ])
    ∷ (if parses then 1 else 0)
    ∷ indexes

handles_clauses :
    summary (handle three response_headers response_startline clauses) ≡ 1 ∷ 2 ∷ 0 ∷ 0 ∷ 0 ∷ []
unfolding handle included_from is_included is_later handle_response_requirements first_added
    add_start_line add_headers add_headers_all add_body is_missing is_not_zero
handles_clauses = refl

handle-HasNeeded_example :
    Holds
      (HasNeeded three response_headers response_startline)
      (handle three response_headers response_startline clauses)
handle-HasNeeded_example = handle-HasNeeded three response_headers response_startline clauses

-- The url of a request and the status of a response have one flag.
one_flag : request_url ≡ response_status
one_flag = refl

-- What a where clause reads through `json_path` alone is forgotten.
forgets_where :
    (o : Order String)
    → (extend o
          (new o)
          (insert o "response.headers" tt (record (new o) { is_where = true }))).where_special
        4
      ≡ false
unfolding extend new insert special_of add_special
forgets_where o = refl

-- A stream that is added a second time, to an endpoint with another stream, is not replaced.
two_start_streams :
    add_start_stream {S = ℕ} 3 (add_start_stream 2 ((false, 1) ∷ []))
    ≡ (false, 1) ∷ (true, 2) ∷ (true, 3) ∷ []
unfolding add_start_stream
two_start_streams = refl
