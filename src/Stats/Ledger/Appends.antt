-- ===== src/Stats/Ledger/Appends.antt =====
-- How `Stats::append` of src/stats.rs keeps what was counted.
use pewpew.Prelude.{
  ℕ, suc, ◌+◌, ◌≡◌, refl, sym, ap, subst, ◌∙◌, inl, inr, Bool-cases, Option-cases, true, none, some,
  length, if◌then◌else◌, arith,
}
use pewpew.BtreeMap.{same_key, get, upsert}
use pewpew.BtreeMap.Lookup.{
  same_key_refl, same_key→≡, get-upsert_same, get-upsert_other, length-upsert,
}
use pewpew.BtreeMap.Sums.{norm_left}
use pewpew.Stats.Crates.{Externals}
use pewpew.Stats.{ResponseStat, Stats, append_bucket, append, write_file_message, tags_message}
use pewpew.Stats.Counts.{Counter, width, weight, norm}
use pewpew.Stats.Ledger.{held, Booked, amount, response_stat}
use pewpew.Stats.Ledger.Keeps.{held-append}

module _ (x : Externals) (f : Counter x → x.Tags → ℕ) (stat : ResponseStat x) (s : Stats x)
    (b : Booked x f s) where
  abbrev pub more : Counter x → x.Tags → ℕ
  more c t = f c t + amount x c t (response_stat stat)

  known : ℕ → Stats x
  known i = record s { current = append_bucket x stat i s.current }

  same_tags :
      (t : x.Tags)
      → same_key x.tags_order t stat.tags ≡ true
      → get x.tags_order t s.tags ≡ get x.tags_order stat.tags s.tags
  same_tags t e = ap (λ u. get x.tags_order u s.tags) (same_key→≡ x.tags_order t stat.tags e)

  same_index :
      (t : x.Tags) (i j : ℕ)
      → get x.tags_order stat.tags s.tags ≡ some i
      → get x.tags_order t s.tags ≡ some j
      → same_key x.status_order j i ≡ same_key x.tags_order t stat.tags
  same_index t i j h k = ground (
    arith,
    same_tags t,
    same_key→≡ x.status_order j i,
    b.apart t stat.tags i,
    same_key_refl x.tags_order t,
    same_key_refl x.status_order i,
  )

  known-Booked : (i : ℕ) → get x.tags_order stat.tags s.tags ≡ some i → Booked x more (known i)
  unfolding held amount known
  known-Booked i h = record {
    absent = λ c t k. ground (arith, same_tags t, b.absent c t k);
    bounded = λ t j k. b.bounded t j k;
    apart = λ t u j k l. b.apart t u j k l;
    fresh = λ c j k.
        held-append x c j i stat s.totals s.current
        ∙ norm_left (width x c) (held x c j s) 0
            (if same_key x.status_order j i then weight x c stat else 0) (b.fresh c j k)
        ∙ ap (norm x c) (ground (arith, same_key→≡ x.status_order j i, b.bounded stat.tags i h));
    booked = λ c t j k.
        held-append x c j i stat s.totals s.current
        ∙ norm_left (width x c) (held x c j s) (f c t)
            (if same_key x.status_order j i then weight x c stat else 0) (b.booked c t j k)
        ∙ ap (norm x c) (ground (arith, same_index t i j h k));
    idle = b.idle;
  }

  newly : Stats x
  newly = write_file_message x (tags_message (length s.tags) stat.tags) (record s {
    tags = upsert x.tags_order stat.tags (λ _. length s.tags) (length s.tags) s.tags;
    current = append_bucket x stat (length s.tags) s.current;
  })

  get-newly :
      (t : x.Tags)
      → get x.tags_order t newly.tags ≡ (
          if same_key x.tags_order t stat.tags
          then some (length s.tags)
          else get x.tags_order t s.tags)
  unfolding newly write_file_message
  get-newly t = ground (
    arith,
    same_key→≡ x.tags_order t stat.tags,
    get-upsert_same x.tags_order stat.tags (length s.tags) s.tags,
    get-upsert_other x.tags_order t stat.tags (length s.tags) s.tags,
  )

  newly-Booked : get x.tags_order stat.tags s.tags ≡ none → Booked x more newly
  unfolding held amount newly write_file_message
  newly-Booked h = record {
    absent = λ c t k. ground (arith, get-newly t, b.absent c t);
    bounded = λ t j k. ground (arith, get-newly t, b.bounded t j, longer);
    apart = λ t u j k l. ground (
      arith,
      get-newly t,
      get-newly u,
      b.apart t u j,
      b.bounded t j,
      b.bounded u j,
      same_key→≡ x.tags_order t stat.tags,
      same_key→≡ x.tags_order u stat.tags,
    );
    fresh = λ c j k.
        held-append x c j n stat s.totals s.current
        ∙ norm_left (width x c) (held x c j s) 0
            (if same_key x.status_order j n then weight x c stat else 0)
            (b.fresh c j (omega (arith, longer, k)))
        ∙ ap (norm x c) (ground (arith, same_key→≡ x.status_order j n, longer));
    booked = λ c t j k. held-append x c j n stat s.totals s.current ∙ count_new c t j k;
    idle = b.idle;
  }
    where
      n : ℕ
      n = length s.tags

      longer : length (upsert x.tags_order stat.tags (λ _. n) n s.tags) ≡ suc n
      longer = length-upsert x.tags_order stat.tags n s.tags h

      count_new :
          (c : Counter x) (t : x.Tags) (j : ℕ)
          → get x.tags_order t newly.tags ≡ some j
          → norm x c (held x c j s + (if same_key x.status_order j n then weight x c stat else 0))
            ≡ norm x c (more c t)
      count_new c t j k = elim (Bool-cases (same_key x.tags_order t stat.tags)) [
        | inl e ↦
            norm_left (width x c) (held x c j s) 0
              (if same_key x.status_order j n then weight x c stat else 0)
              (b.fresh c j (ground (arith, get-newly t)))
            ∙ ap (norm x c) (
                ground
                  (arith, get-newly t, same_key_refl x.status_order n, same_tags t, b.absent c t))
        | inr e ↦
            norm_left (width x c) (held x c j s) (f c t)
              (if same_key x.status_order j n then weight x c stat else 0)
              (b.booked c t j (ground (arith, get-newly t)))
            ∙ ap (norm x c)
                (ground (arith, get-newly t, same_key→≡ x.status_order j n, b.bounded t j))
      ]

  append-newly : get x.tags_order stat.tags s.tags ≡ none → append x stat s ≡ newly
  unfolding append newly
  append-newly h = rw (h, append) refl

  append-known : (i : ℕ) → get x.tags_order stat.tags s.tags ≡ some i → append x stat s ≡ known i
  unfolding append known
  append-known i h = rw (h, append) refl

  -- A response is counted under its tags, and under no others.
  pub append-Booked : Booked x more (append x stat s)
  append-Booked = elim (Option-cases (get x.tags_order stat.tags s.tags)) [
    | inl h ↦ subst (Booked x more) (sym (append-newly h)) (newly-Booked h)
    | inr (i, h) ↦ subst (Booked x more) (sym (append-known i h)) (known-Booked i h)
  ]
