-- ===== src/Channel/Handles/Calls/Unique.antt =====
-- Unique channels of lib/channel/src/lib.rs: the set of hashes over the histories of a channel.
use pewpew.Prelude.{
  ℕ, ◌≡◌, refl, ap, inl, inr, Bool, Bool-cases, true, false, ◌||◌, some, List, [], ◌∷◌, ◌++◌, map,
  ◌==◌, if◌then◌else◌, arith,
}
use Prim.Native.String.{String}
use pewpew.Channel.Crates.{Deps}
use pewpew.Channel.{Channel, HashSet, Limit, new, send, recv, insert, remove}
use pewpew.Channel.Contents.{items}
use pewpew.Channel.Handles.Calls.{Call, run}
use pewpew.Channel.Handles.Calls.Keeps.{Core, core}
use pewpew.Channel.Handles.Calls.Induction.{any_calls, run-keeps}

abbrev pub contains : ℕ → List ℕ → Bool
contains k [] = false
contains k (h ∷ hs) = h == k || contains k hs

abbrev pub Distinct : List ℕ → Type 0
Distinct [] = Unit {0}
Distinct (h ∷ hs) = (contains h hs ≡ false) × Distinct hs

contains-snoc : (k h : ℕ) (hs : List ℕ) → contains k (hs ++ h ∷ []) ≡ (contains k hs || h == k)
contains-snoc k h [] = ground arith
contains-snoc k h (g ∷ hs) = ground (arith, contains-snoc k h hs)

Distinct-snoc :
    (h : ℕ) (hs : List ℕ) → Distinct hs → contains h hs ≡ false → Distinct (hs ++ h ∷ [])
Distinct-snoc h [] d new_one = (refl, tt)
Distinct-snoc h (g ∷ hs) d new_one =
    (ground (arith, contains-snoc g h hs), Distinct-snoc h hs d.1 (ground arith))

module _ {T : Type 0} (d : Deps T) where
  abbrev pub hashes : List T → List ℕ
  hashes xs = map d.hash xs

  hashes-snoc : (xs : List T) (x : T) → hashes (xs ++ x ∷ []) ≡ hashes xs ++ d.hash x ∷ []
  hashes-snoc [] x = refl
  hashes-snoc (y ∷ ys) x = ap (λ hs. d.hash y ∷ hs) (hashes-snoc ys x)

  -- The set has the hashes of the queued items and no others, and no two items share one.
  record Matches (k : Core d) : Type 0 where
    set : HashSet d
    is_unique : k.unique ≡ some set
    distinct : Distinct (hashes (d.items k.queue))
    agrees : (h : ℕ) → d.has h set.inner ≡ contains h (hashes (d.items k.queue))

  -- A send to a unique channel drops the item if its hash is queued, and queues it otherwise.
  items-send-Matches :
      (x : T) (c : Channel d)
      → Matches (core d c)
      → items d (send d x c)
        ≡ (if contains (d.hash x) (hashes (items d c)) then items d c else items d c ++ x ∷ [])
  unfolding send
  items-send-Matches x c m = ground (
    arith,
    m.is_unique,
    m.agrees (d.hash x),
    d.insert_new (d.hash x) m.set.inner,
    d.items-push x c.queue,
  )

  hashes-send :
      (x : T) (c : Channel d)
      → Matches (core d c)
      → hashes (items d (send d x c)) ≡ (
          if contains (d.hash x) (hashes (items d c))
          then hashes (items d c)
          else hashes (items d c) ++ d.hash x ∷ [])
  hashes-send x c m =
      rw (items-send-Matches x c m) (elim (Bool-cases (contains (d.hash x) (hashes (items d c)))) [
        | inl old ↦ rw old refl
        | inr new_one ↦ rw new_one (hashes-snoc (items d c) x)
      ])

  send-Matches : (x : T) (c : Channel d) → Matches (core d c) → Matches (core d (send d x c))
  unfolding send
  send-Matches x c m = record {
    set = (insert d x m.set).0;
    is_unique = ground (arith, m.is_unique);
    distinct =
        rw (hashes-send x c m) (elim (Bool-cases (contains (d.hash x) (hashes (items d c)))) [
          | inl old ↦ rw old m.distinct
          | inr new_one ↦ rw new_one (Distinct-snoc (d.hash x) _ m.distinct new_one)
        ]);
    agrees = λ h. rw (hashes-send x c m) (
        ground (
          arith,
          d.has-insert (d.hash x) h m.set.inner,
          m.agrees h,
          m.agrees (d.hash x),
          contains-snoc h (d.hash x) (hashes (items d c)),
        ));
  }

  recv_leaves :
      (c : Channel d) (s : HashSet d) (x : T) (rest : d.Queue)
      → c.unique ≡ some s
      → d.pop c.queue ≡ some (x, rest)
      → ((recv d c).1.queue ≡ rest) × ((recv d c).1.unique ≡ some (remove d x s))
  unfolding recv
  recv_leaves c s x rest u e = rw e (ground arith)

  Matches-popped :
      (c c' : Channel d) (m : Matches (core d c)) (x : T) (rest : d.Queue)
      → d.items c.queue ≡ x ∷ d.items rest
      → c'.queue ≡ rest
      → c'.unique ≡ some (remove d x m.set)
      → Matches (core d c')
  unfolding remove
  Matches-popped c c' m x rest held q u =
      let e : hashes (d.items c.queue) ≡ d.hash x ∷ hashes (d.items rest) = ap hashes held in
      let apart : Distinct (d.hash x ∷ hashes (d.items rest)) = rw e at m.distinct in
      record {
        set = remove d x m.set;
        is_unique = u;
        distinct = rw q apart.1;
        agrees = λ h. rw q (
            ground
              (arith, d.has-remove (d.hash x) h m.set.inner, m.agrees h, ap (contains h) e, apart));
      }

  recv-Matches : (c : Channel d) → Matches (core d c) → Matches (core d (recv d c).1)
  unfolding recv
  recv-Matches c m = elim (d.items-pop c.queue) [
    | inl (empty, e) ↦
        rw e (record {
          set = m.set;
          is_unique = m.is_unique;
          distinct = m.distinct;
          agrees = m.agrees;
        })
    | inr (x, rest, held, e) ↦
        let (q, u) = recv_leaves c m.set x rest m.is_unique e in
        Matches-popped c (recv d c).1 m x rest held q u
  ]

  new-Matches : (limit : Limit) (name : String) → Matches (core d (new d limit true name))
  unfolding new
  new-Matches limit name = record {
    set = record { inner = d.no_hashes };
    is_unique = refl;
    distinct = rw d.items-unbounded tt;
    agrees = λ h. rw d.items-unbounded (d.has-no_hashes h);
  }

  run-Matches :
      (limit : Limit) (name : String) (ks : List (Call d))
      → Matches (core d (run d ks (new d limit true name)).1)
  run-Matches limit name ks =
      run-keeps d Matches (Unit {0}) recv-Matches (λ x c r. send-Matches x c)
        (λ x c a. send-Matches x c) ks _ (any_calls ks) (new-Matches limit name)

  -- After any history of a unique channel no two queued items have the same hash, and one more send
  -- drops its item exactly if an item with its hash is queued, and queues it last otherwise.
  pub run_unique :
      (limit : Limit) (name : String) (ks : List (Call d)) (x : T)
      → let c = (run d ks (new d limit true name)).1 in
        Distinct (hashes (items d c))
        × (items d (send d x c)
            ≡ (if contains (d.hash x) (hashes (items d c)) then items d c else items d c ++ x ∷ []))
  run_unique limit name ks x =
      let m = run-Matches limit name ks in (m.distinct, items-send-Matches x _ m)
