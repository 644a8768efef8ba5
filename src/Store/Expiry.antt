-- ===== src/Store/Expiry.antt =====
-- `expireStaleHosts`: what one check does to every entry of the bucket.
use lanmon.Prelude.{
  ℕ, ◌≡◌, refl, sym, ap, ◌∙◌, Bool, true, false, not, ◌&&◌, some, List, [], ◌∷◌, ◌++◌, map,
  append_assoc, Text, ltb, if◌then◌else◌, text_eq, text_lt, text_eq_iff, text_lt_irrefl,
  text_lt_trans, arith, select, Bool-cases, inl, inr, ok, err, >>=-eq-ok,
}
use mathlib.Core.Option
use lanmon.Prelude.Assoc.{lookup, insert, IsSorted, IsAbove}
use lanmon.Go.Int.{ℤ}
use lanmon.Store.Record.{HostRecord, Stored, json, broken, clean, marshal, is_encodable}
use lanmon.Store.Bolt.{Bolt}
use lanmon.Store.Ops.{
  StoreError, cutoff_at, read_all, expire_one, expire_loop, expire_tx, expire_stale_hosts,
  get_active,
}
use lanmon.Store.Write.{update_err, update_ok}

-- The record is active and was last seen before the cutoff.
abbrev pub is_stale : ℕ → HostRecord → Bool
is_stale cutoff r = r.active && ltb r.last_seen cutoff

abbrev pub retired : HostRecord → HostRecord
retired r = record r { active = false }

-- What a check makes of one text.
unfoldable pub expire_value : ℕ → Stored → Stored
expire_value cutoff (broken r) = broken r
expire_value cutoff (json r) =
    if is_stale cutoff r && is_encodable (retired r) then json (clean (retired r)) else json r

abbrev pub expire_entry : ℕ → Text × Stored → Text × Stored
expire_entry cutoff (k, s) = (k, expire_value cutoff s)

IsAbove-append {ℓ} :
    {V : Type ℓ} (i j : Text) (w : V) (pre rest : List (Text × V))
    → IsAbove i (pre ++ (j, w) ∷ rest)
    → text_lt i j ≡ true
IsAbove-append i j w [] rest a = a.0
IsAbove-append i j w ((k, v) ∷ pre) rest a = IsAbove-append i j w pre rest a.1

text_lt_asymm : (a b : Text) → text_lt a b ≡ true → text_lt b a ≡ false
text_lt_asymm a b h = elim (Bool-cases (text_lt b a)) [
  | inl k ↦ cc (text_lt_trans a b a h k, text_lt_irrefl a)
  | inr k ↦ k
]

text_eq_of_lt : (a b : Text) → text_lt a b ≡ true → text_eq b a ≡ false
text_eq_of_lt a b h = ground (arith, text_eq_iff b a, text_lt_irrefl a)

-- A write at a key that is there changes the value in place.
insert-append {ℓ} :
    {V : Type ℓ} (j : Text) (v w : V) (pre rest : List (Text × V))
    → IsSorted (pre ++ (j, w) ∷ rest)
    → insert j v (pre ++ (j, w) ∷ rest) ≡ pre ++ (j, v) ∷ rest
unfolding insert
insert-append j v w [] rest s = ground (arith, text_eq_iff j j)
insert-append j v w ((i, u) ∷ pre) rest s =
    let below = IsAbove-append i j w pre rest s.0 in
    rw (text_eq_of_lt i j below, text_lt_asymm i j below)
      (ap (◌∷◌ (i, u)) (insert-append j v w pre rest s.1))

module _ (bolt : Bolt) where
  open bolt use {Bucket, entries, put, sorted, entries-put}

  put_in_place :
      (k : Text) (v w : Stored) (b b' : Bucket) (pre rest : List (Text × Stored))
      → entries b ≡ pre ++ (k, w) ∷ rest
      → put k v b ≡ some b'
      → entries b' ≡ pre ++ (k, v) ∷ rest
  put_in_place k v w b b' pre rest e h =
      entries-put k v b b' h ∙ rw e (insert-append k v w pre rest (rw e at (sorted b)))

  expire_one-entries :
      (cutoff : ℕ) (k : Text) (s : Stored) (b b' : Bucket) (pre rest : List (Text × Stored))
      → entries b ≡ pre ++ (k, s) ∷ rest
      → expire_one bolt cutoff k s b ≡ ok b'
      → entries b' ≡ pre ++ (k, expire_value cutoff s) ∷ rest
  unfolding expire_one expire_value marshal
  expire_one-entries cutoff k (broken r) b b' pre rest e h = ground arith
  expire_one-entries cutoff k (json r) b b' pre rest e h =
      ground (arith, put_in_place k (json (clean (retired r))) (json r) b b' pre rest e)

  expire_loop-entries :
      (cutoff : ℕ) (rest pre : List (Text × Stored)) (b b' : Bucket)
      → entries b ≡ pre ++ rest
      → expire_loop bolt cutoff rest b ≡ ok b'
      → entries b' ≡ pre ++ map (expire_entry cutoff) rest
  unfolding expire_loop
  expire_loop-entries cutoff [] pre b b' e h = ground arith
  expire_loop-entries cutoff ((k, s) ∷ rest) pre b b' e h =
      let (c, one, later) =
        >>=-eq-ok (expire_one bolt cutoff k s b) (expire_loop bolt cutoff rest) h in
      let x = expire_entry cutoff (k, s) in
      expire_loop-entries cutoff rest (pre ++ x ∷ []) c b'
        (expire_one-entries cutoff k s b c pre rest e one ∙ sym (append_assoc pre (x ∷ []) rest))
        later
      ∙ append_assoc pre (x ∷ []) (map (expire_entry cutoff) rest)

  -- A check that succeeds applies `expire_value` to every entry and moves none.
  pub expire-entries :
      (io : Bool) (now : ℕ) (threshold : ℤ) (b : Bucket)
      → (expire_stale_hosts bolt io now threshold b).1 ≡ ok tt
      → entries (expire_stale_hosts bolt io now threshold b).0
        ≡ map (expire_entry (cutoff_at now threshold)) (entries b)
  unfolding expire_stale_hosts
  expire-entries io now threshold b h =
      expire_loop-entries (cutoff_at now threshold) (entries b) [] b _ refl
        (update_ok bolt io (expire_tx bolt (cutoff_at now threshold)) b h).1

  pub expire_err :
      (io : Bool) (now : ℕ) (threshold : ℤ) (b : Bucket) {e : StoreError}
      → (expire_stale_hosts bolt io now threshold b).1 ≡ err e
      → (expire_stale_hosts bolt io now threshold b).0 ≡ b
  unfolding expire_stale_hosts
  expire_err io now threshold b h =
      update_err bolt io (expire_tx bolt (cutoff_at now threshold)) b h

-- Every text decodes to a record that can be marshalled again.
abbrev pub IsEncodable : Stored → Type 0
IsEncodable (json r) = is_encodable r ≡ true
IsEncodable (broken r) = Unit

abbrev pub AllEncodable : List (Text × Stored) → Type 0
AllEncodable [] = Unit
AllEncodable ((k, s) ∷ rest) = IsEncodable s × AllEncodable rest

pub retired-is_encodable : (r : HostRecord) → is_encodable (retired r) ≡ is_encodable r
unfolding is_encodable
retired-is_encodable r = refl

active_after :
    (cutoff : ℕ) (m : List (Text × Stored))
    → AllEncodable m
    → select (λ r. r.active) (read_all (map (expire_entry cutoff) m))
      ≡ select (λ r. not (ltb r.last_seen cutoff)) (select (λ r. r.active) (read_all m))
unfolding expire_value
active_after cutoff [] h = refl
active_after cutoff ((k, broken r) ∷ rest) h = active_after cutoff rest h.1
active_after cutoff ((k, json r) ∷ rest) h =
    ground (arith, retired-is_encodable r, active_after cutoff rest h.1)

module _ (bolt : Bolt) where
  open bolt use {Bucket, entries}

  -- After a check that succeeds, `GetActive` returns those of the hosts that it returned before
  -- whose last beacon is not older than the threshold, in the same order and unchanged.
  pub get_active-expire :
      (io : Bool) (now : ℕ) (threshold : ℤ) (b : Bucket) (before : List HostRecord)
      → AllEncodable (entries b)
      → get_active bolt true b ≡ ok before
      → (expire_stale_hosts bolt io now threshold b).1 ≡ ok tt
      → get_active bolt true (expire_stale_hosts bolt io now threshold b).0
        ≡ ok (select (λ r. not (ltb r.last_seen (cutoff_at now threshold))) before)
  unfolding get_active
  get_active-expire io now threshold b before enc was h =
      let active : select (λ r. r.active) (read_all (entries b)) ≡ before = ground arith in
      rw (expire-entries bolt io now threshold b h) (
        ap ok (
          active_after (cutoff_at now threshold) (entries b) enc
          ∙ ap (select (λ r. not (ltb r.last_seen (cutoff_at now threshold)))) active))

-- What a check makes of the entry at a key.
lookup-map-expire_entry :
    (cutoff : ℕ) (k : Text) (m : List (Text × Stored))
    → lookup k (map (expire_entry cutoff) m) ≡ Option.map (expire_value cutoff) (lookup k m)
unfolding lookup
lookup-map-expire_entry cutoff k [] = refl
lookup-map-expire_entry cutoff k ((j, s) ∷ m) = ground (arith, lookup-map-expire_entry cutoff k m)

module _ (bolt : Bolt) where
  open bolt use {Bucket, get, get-entries}

  pub get-expire :
      (io : Bool) (now : ℕ) (threshold : ℤ) (b : Bucket) (k : Text)
      → (expire_stale_hosts bolt io now threshold b).1 ≡ ok tt
      → get (expire_stale_hosts bolt io now threshold b).0 k
        ≡ Option.map (expire_value (cutoff_at now threshold)) (get b k)
  get-expire io now threshold b k h =
      get-entries (expire_stale_hosts bolt io now threshold b).0 k
      ∙ ap (lookup k) (expire-entries bolt io now threshold b h)
      ∙ lookup-map-expire_entry (cutoff_at now threshold) k (bolt.entries b)
      ∙ ap (Option.map (expire_value (cutoff_at now threshold))) (sym (get-entries b k))
