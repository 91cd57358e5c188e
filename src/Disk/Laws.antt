-- ===== src/Disk/Laws.antt =====
-- What a client of `DiskManager` (page.rs) relies on: pages and the header are read back.
use smol_db.Common.{
  ℕ, zero, suc, ◌+◌, ◌-◌, ◌≤◌, ◌≡◌, refl, sym, ap, ◌∙◌, ◌⊎◌, inl, inr, List, [], ◌∷◌, ◌++◌, none,
  arith, le→leb, length, length-append, length-take, length-drop, length-replicate, take, drop,
  replicate, take-append, take-append-drop, drop-append, drop_past, take_within, drop-drop,
}
use smol_db.Error.Outcome.{ok}
use smol_db.Storage.{overwrite, write_all_at, read_exact_at}
use smol_db.Page.{Page, PageId, page_size}
use smol_db.Disk.{FileHeader, DiskManager, read_page, write_page}

-- `take n (drop m xs)` of a list whose head is known
drop_within : (xs ys : List ℕ) (n : ℕ) → n ≤ length xs → drop n (xs ++ ys) ≡ drop n xs ++ ys
drop_within xs ys zero h = refl
drop_within [] ys (suc n) h = absurd (omega arith)
drop_within (x ∷ xs) ys (suc n) h = drop_within xs ys n (omega arith)

-- a window of the first part
window-within :
    (xs ys : List ℕ) (o n : ℕ) → o + n ≤ length xs → take n (drop o (xs ++ ys)) ≡ take n (drop o xs)
window-within xs ys o n h =
    rw (drop_within xs ys o (omega arith))
      (take_within (drop o xs) ys n (omega (arith, length-drop o xs)))

module _ (offset : ℕ) (bytes content : List ℕ) where
  abbrev padded : List ℕ
  padded = content ++ replicate (offset - length content) 0

  length-head : length (take offset padded) ≡ offset
  length-head = omega (
    arith,
    length-take offset padded,
    length-append content (replicate (offset - length content) 0),
    length-replicate {A = ℕ} (offset - length content) 0,
  )

  pub overwrite_self : take (length bytes) (drop offset (overwrite offset bytes content)) ≡ bytes
  overwrite_self =
      rw
        (drop-append (take offset padded) (bytes ++ drop (offset + length bytes) padded) offset
          (sym length-head))
        (take-append bytes (drop (offset + length bytes) padded) (length bytes) refl)

  pub length-overwrite : offset + length bytes ≤ length (overwrite offset bytes content)
  length-overwrite = omega (
    arith,
    length-head,
    length-append (take offset padded) (bytes ++ drop (offset + length bytes) padded),
    length-append bytes (drop (offset + length bytes) padded),
  )

  length-padded : offset ≤ length padded
  length-padded = omega (
    arith,
    length-append content (replicate (offset - length content) 0),
    length-replicate {A = ℕ} (offset - length content) 0,
  )

  module _ (o n : ℕ) (stored : o + n ≤ length content) where
    window-padded : take n (drop o padded) ≡ take n (drop o content)
    window-padded = window-within content (replicate (offset - length content) 0) o n stored

    -- what lies before the bytes
    pub overwrite_before :
        o + n ≤ offset → take n (drop o (overwrite offset bytes content)) ≡ take n (drop o content)
    overwrite_before le =
        let head = take offset padded in
        let split = window-within head (drop offset padded) o n (omega (arith, length-head)) in
        rw
          (window-within head (bytes ++ drop (offset + length bytes) padded) o n
            (omega (arith, length-head)))
          (sym split
            ∙ (ap (λ xs. take n (drop o xs)) (take-append-drop offset padded) ∙ window-padded))

    -- and behind them
    pub overwrite_behind :
        offset + length bytes ≤ o
        → take n (drop o (overwrite offset bytes content)) ≡ take n (drop o content)
    overwrite_behind le =
        let rest = drop (offset + length bytes) padded in
        rw
          (
            drop_past (take offset padded) (bytes ++ rest) o (o - offset)
                (omega (arith, length-head)),
            drop_past bytes rest (o - offset) (o - offset - length bytes) (omega arith),
            drop-drop (o - offset - length bytes) (offset + length bytes) o padded (omega arith),
          )
          window-padded

    pub length-overwrite_le : o + n ≤ length (overwrite offset bytes content)
    length-overwrite_le = omega (
      arith,
      length-head,
      length-padded,
      length-append content (replicate (offset - length content) 0),
      length-append (take offset padded) (bytes ++ drop (offset + length bytes) padded),
      length-append bytes (drop (offset + length bytes) padded),
      length-drop (offset + length bytes) padded,
    )

-- a manager whose file has no faults to come
abbrev pub manager : List ℕ → List ℕ → FileHeader → DiskManager
manager content durable header = record {
  file = record { content = content; durable = durable; faults = [] };
  header = header;
}

read_page-window :
    (content durable : List ℕ) (header : FileHeader) (id : PageId)
    → id + page_size ≤ length content
    → read_page none id (manager content durable header)
      ≡ ok (record { bytes = take page_size (drop id content) })
unfolding read_page read_exact_at
read_page-window content durable header id le =
    rw (le→leb (id + page_size) (length content) le) refl

-- a page that is written is read back
pub read_page-own :
    (content durable : List ℕ) (header : FileHeader) (id : PageId) (page : Page)
    → length page.bytes ≡ page_size
    → let d = manager content durable header in
      let written = (write_page id page d).1 in
      (write_page id page d ≡ (ok tt, written)) × (read_page none id written ≡ ok page)
unfolding write_page write_all_at
read_page-own content durable header id page whole =
    let after = overwrite id page.bytes content in
    let le : id + page_size ≤ length after =
      omega (arith, whole, length-overwrite id page.bytes content) in
    let own : take page_size (drop id after) ≡ page.bytes =
      rw (sym whole) (overwrite_self id page.bytes content) in
    (refl, read_page-window after durable header id le ∙ ap (λ b. ok (record { bytes = b })) own)

-- On a file whose calls succeed, a page that is written is read back, and a page stored elsewhere,
-- with no byte in common, reads as before.
pub read_page-write_page :
    (content durable : List ℕ) (header : FileHeader) (id other : PageId) (page : Page)
    → length page.bytes ≡ page_size
    → other + page_size ≤ length content
    → (other + page_size ≤ id) ⊎ (id + page_size ≤ other)
    → let d = manager content durable header in
      let written = (write_page id page d).1 in
      (write_page id page d ≡ (ok tt, written))
      × (read_page none id written ≡ ok page)
      × (read_page none other written ≡ read_page none other d)
unfolding write_page write_all_at
read_page-write_page content durable header id other page whole stored apart =
    let after = overwrite id page.bytes content in
    let same : take page_size (drop other after) ≡ take page_size (drop other content) =
      elim apart [
        | inl before ↦ overwrite_before id page.bytes content other page_size stored before
        | inr behind ↦
            overwrite_behind id page.bytes content other page_size stored (omega (arith, whole))
      ] in
    let kept = length-overwrite_le id page.bytes content other page_size stored in
    let (done, own) = read_page-own content durable header id page whole in
    (
      done,
      own,
      read_page-window after durable header other kept
          ∙ (ap (λ b. ok (record { bytes = b })) same
              ∙ sym (read_page-window content durable header other stored)),
    )
