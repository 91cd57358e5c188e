-- ===== src/Page/Leaf/Edit.antt =====
-- Edits of the rows of a leaf: one row replaced, one row inserted, and the lists that store them.
use smol_db.Common.{
  ℕ, zero, suc, ◌<◌, ◌≡◌, ◌≢◌, refl, ap, List, [], ◌∷◌, ◌++◌, some, arith, ◌==◌, if◌then◌else◌,
  length, get_elem?, get_elem?-lt, get_elem?-set_self, get_elem?-set_ne, get_elem?-append_left,
  get_elem?-append_last, set, insert_elem, IsAscending, All, All-get,
}
use mathlib.Core.Option.{some-injective}
use smol_db.Slice.{insert_at}
use smol_db.Slice.Locate.{IsPlace}
use smol_db.Page.{Record}
use smol_db.Page.Leaf.{live_payload}
use smol_db.Page.Leaf.Rows.{Reads, row_ids, live_row, row_ids-get}

-- two records with different ids stand at different indices
slots_apart :
    (records : List Record) (s t : ℕ) {r q : Record}
    → get_elem? records s ≡ some r
    → get_elem? records t ≡ some q
    → q.row_id ≢ r.row_id
    → s ≢ t
slots_apart records s t at at' ne e = ne (cc (at, at', e))

Reads-set_other :
    (records : List Record) (slots : List ℕ) (rows : List Record) (s : ℕ) (r r' : Record)
    → get_elem? records s ≡ some r
    → ((j m : ℕ) → get_elem? (row_ids rows) j ≡ some m → m ≢ r.row_id)
    → Reads records slots rows
    → Reads (set records s r') slots rows
Reads-set_other records [] [] s r r' at ne h = tt
Reads-set_other records [] (q ∷ rows) s r r' at ne h = h
Reads-set_other records (t ∷ slots) [] s r r' at ne h = h
Reads-set_other records (t ∷ slots) (q ∷ rows) s r r' at ne h = (
  rw (get_elem?-set_ne records s t r' (slots_apart records s t at h.0 (ne 0 q.row_id refl))) h.0,
  Reads-set_other records slots rows s r r' at (λ j. ne (suc j)) h.1,
)

pub row_ids-set :
    (rows : List Record) (i : ℕ) (r' : Record) {r : Record}
    → get_elem? rows i ≡ some r
    → r'.row_id ≡ r.row_id
    → row_ids (set rows i r') ≡ row_ids rows
row_ids-set [] i r' at same = refl
row_ids-set (q ∷ rows) zero r' at same = ground arith
row_ids-set (q ∷ rows) (suc i) r' at same = ap (◌∷◌ q.row_id) (row_ids-set rows i r' at same)

module _ (records : List Record) (s : ℕ) (r r' : Record) (at : get_elem? records s ≡ some r) where
  -- replacing the record of one row leaves the other rows
  pub Reads-set :
      (slots : List ℕ) (rows : List Record) (i : ℕ)
      → IsAscending (row_ids rows)
      → get_elem? slots i ≡ some s
      → get_elem? rows i ≡ some r
      → Reads records slots rows
      → Reads (set records s r') slots (set rows i r')
  Reads-set [] [] i a p q h = tt
  Reads-set [] (x ∷ rows) i a p q h = absurd h
  Reads-set (t ∷ slots) [] i a p q h = absurd h
  Reads-set (t ∷ slots) (x ∷ rows) zero a p q h =
      let same : x.row_id ≡ r.row_id = ap (λ (y : Record). y.row_id) (some-injective _ _ q) in
      (
        rw (some-injective _ _ p) (get_elem?-set_self records s r' (get_elem?-lt records s at)),
        Reads-set_other records slots rows s r r' at
            (λ j m e. omega (arith, same, All-get (λ n. x.row_id < n) (row_ids rows) j a.0 e)) h.1,
      )
  Reads-set (t ∷ slots) (x ∷ rows) (suc i) a p q h =
      let above : x.row_id < r.row_id =
        All-get (λ j. x.row_id < j) (row_ids rows) i a.0 (row_ids-get rows i q) in
      (
        rw (get_elem?-set_ne records s t r' (slots_apart records s t at h.0 (omega arith))) h.0,
        Reads-set slots rows i a.1 p q h.1,
      )

pub live_row-set :
    (k : ℕ) (rows : List Record) (i : ℕ) (r' : Record) {r : Record}
    → IsAscending (row_ids rows)
    → get_elem? rows i ≡ some r
    → r'.row_id ≡ r.row_id
    → live_row k (set rows i r') ≡ (if r.row_id == k then live_payload r' else live_row k rows)
live_row-set k [] i r' a at same = ground arith
live_row-set k (q ∷ rows) zero r' {r} a at same =
    let e : q.row_id ≡ r.row_id = ap (λ (y : Record). y.row_id) (some-injective _ _ at) in
    ground (arith, e)
live_row-set k (q ∷ rows) (suc i) r' {r} a at same = ground (
  arith,
  live_row-set k rows i r' {r = r} a.1 at same,
  All-get (λ j. q.row_id < j) (row_ids rows) i a.0 (row_ids-get rows i at),
)

pub Reads-append :
    (records more : List Record) (slots : List ℕ) (rows : List Record)
    → Reads records slots rows
    → Reads (records ++ more) slots rows
Reads-append records more [] [] h = tt
Reads-append records more [] (q ∷ rows) h = h
Reads-append records more (t ∷ slots) [] h = h
Reads-append records more (t ∷ slots) (q ∷ rows) h =
    (get_elem?-append_left records more t h.0, Reads-append records more slots rows h.1)

module _ (records : List Record) (rec : Record) where
  -- a record pushed at the end, and its slot inserted
  pub Reads-insert :
      (slots : List ℕ) (rows : List Record) (i : ℕ)
      → Reads records slots rows
      → Reads (records ++ rec ∷ []) (insert_elem slots i (length records)) (insert_elem rows i rec)
  Reads-insert slots rows zero h =
      (get_elem?-append_last records rec, Reads-append records (rec ∷ []) slots rows h)
  Reads-insert [] [] (suc i) h = (get_elem?-append_last records rec, tt)
  Reads-insert [] (q ∷ rows) (suc i) h = absurd h
  Reads-insert (t ∷ slots) [] (suc i) h = absurd h
  Reads-insert (t ∷ slots) (q ∷ rows) (suc i) h =
      (get_elem?-append_left records (rec ∷ []) t h.0, Reads-insert slots rows i h.1)

pub live_row-insert :
    (k : ℕ) (rows : List Record) (i : ℕ) (rec : Record)
    → ((j m : ℕ) → j < i → get_elem? (row_ids rows) j ≡ some m → m < rec.row_id)
    → live_row k (insert_elem rows i rec)
      ≡ (if rec.row_id == k then live_payload rec else live_row k rows)
live_row-insert k rows zero rec below = refl
live_row-insert k [] (suc i) rec below = refl
live_row-insert k (q ∷ rows) (suc i) rec below = ground (
  arith,
  below 0 q.row_id (omega arith) refl,
  live_row-insert k rows i rec λ j m lt. below (suc j) m (omega arith),
)

pub row_ids-insert :
    (rows : List Record) (i : ℕ) (rec : Record)
    → row_ids (insert_elem rows i rec) ≡ insert_elem (row_ids rows) i rec.row_id
row_ids-insert rows zero rec = refl
row_ids-insert [] (suc i) rec = refl
row_ids-insert (q ∷ rows) (suc i) rec = ap (◌∷◌ q.row_id) (row_ids-insert rows i rec)

All-get_elem? {ℓ} :
    (P : ℕ → Type ℓ) (ks : List ℕ) → ((j m : ℕ) → get_elem? ks j ≡ some m → P m) → All P ks
All-get_elem? P [] h = tt
All-get_elem? P (k ∷ ks) h = (h 0 k refl, All-get_elem? P ks (λ j. h (suc j)))

All-insert {ℓ} :
    (P : ℕ → Type ℓ) (ks : List ℕ) (i t : ℕ) → P t → All P ks → All P (insert_elem ks i t)
All-insert P ks zero t p h = (p, h)
All-insert P [] (suc i) t p h = (p, tt)
All-insert P (k ∷ ks) (suc i) t p h = (h.0, All-insert P ks i t p h.1)

pub insert-IsAscending :
    (ks : List ℕ) (i t : ℕ)
    → IsAscending ks
    → IsPlace ks t (insert_at i)
    → IsAscending (insert_elem ks i t)
insert-IsAscending ks zero t a (le, below, above) =
    (All-get_elem? (λ j. t < j) ks (λ j m. above j m (omega arith)), a)
insert-IsAscending [] (suc i) t a (le, below, above) = absurd (omega arith)
insert-IsAscending (k ∷ ks) (suc i) t a (le, below, above) = (
  All-insert (λ j. k < j) ks i t (below 0 k (omega arith) refl) a.0,
  insert-IsAscending ks i t a.1 (
    omega arith,
    λ j m lt. below (suc j) m (omega arith),
    λ j m lt. above (suc j) m (omega arith),
  ),
)
