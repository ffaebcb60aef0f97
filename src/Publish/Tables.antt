-- ===== src/Publish/Tables.antt =====
-- The tables of files and contents as maps, and what an update does to them.
use mathlib.Core.Option.{some-injective}
use bee_ba.Common.{
  ◌≡◌, ◌≢◌, ◌⊎◌, refl, sym, ap, ◌∙◌, Bool, true, false, Option, none, some, List, [], ◌∷◌, ok, err,
  >>=-eq-ok, ok-injective, arith, Bool-cases, inl, inr, if◌then◌else◌,
}
use bee_ba.Common.Text.{Bytes, bytes_eq, bytes_eq_iff}
use bee_ba.Jobs.Row.{no_rows}
use bee_ba.Publish.{FileRow, ItemRow, update_file, update_item, get_content_file_for_scan}

unfoldable pub find_item : Bytes → List ItemRow → Option ItemRow
unfolding bytes_eq
find_item id [] = none
find_item id (row ∷ rows) =
    let rest = find_item id rows in if bytes_eq row.content_id id then some row else rest

pub bytes_eq_refl : (a : Bytes) → bytes_eq a a ≡ true
bytes_eq_refl a = (bytes_eq_iff a a).1 refl

pub bytes_eq_ne : (a b : Bytes) → a ≢ b → bytes_eq a b ≡ false
bytes_eq_ne a b n = ground (arith, bytes_eq_iff a b)

-- A successful update: the row that it found and allowed, the row that is there now, and the other
-- rows, which it leaves.
pub record ItemUpdate (allowed : ItemRow → Bool) (f : ItemRow → ItemRow) (id : Bytes)
    (items items' : List ItemRow) : Type 0 where
  pub old : ItemRow
  pub found : find_item id items ≡ some old
  pub is_allowed : allowed old ≡ true
  pub written : find_item id items' ≡ some (f old)
  pub others : (other : Bytes) → other ≢ id → find_item other items' ≡ find_item other items

pub update_item-ItemUpdate :
    (allowed : ItemRow → Bool) (f : ItemRow → ItemRow) (id : Bytes) (items items' : List ItemRow)
    → ((row : ItemRow) → (f row).content_id ≡ row.content_id)
    → update_item allowed f id items ≡ ok items'
    → ItemUpdate allowed f id items items'
unfolding update_item find_item
update_item-ItemUpdate allowed f id [] items' keeps h = cc
update_item-ItemUpdate allowed f id (row ∷ rows) items' keeps h =
    elim (Bool-cases (bytes_eq row.content_id id)) [
      | inl e ↦ here e (Bool-cases (allowed row)) (rw e at h)
      | inr e ↦
          let (rows', h1, h2) = >>=-eq-ok (update_item allowed f id rows) _ (rw e at h) in
          there e rows' (update_item-ItemUpdate allowed f id rows rows' keeps h1)
            (ok-injective _ _ h2)
    ]
  where
    here :
        bytes_eq row.content_id id ≡ true
        → (allowed row ≡ true) ⊎ (allowed row ≡ false)
        → (if allowed row then ok (f row ∷ rows) else err no_rows) ≡ ok items'
        → ItemUpdate allowed f id (row ∷ rows) items'
    here e (inr n) h = absurd (cc (rw n at h))
    here e (inl y) h =
        let same : f row ∷ rows ≡ items' = ok-injective _ _ (rw y at h) in
        let id_is : row.content_id ≡ id = (bytes_eq_iff row.content_id id).0 e in
        record {
          old = row;
          found = rw e refl;
          is_allowed = y;
          written = rw (sym same, keeps row, e) refl;
          others = λ other n.
              rw (sym same, keeps row, bytes_eq_ne row.content_id other (λ q. n (sym q ∙ id_is)))
                refl;
        }

    there :
        bytes_eq row.content_id id ≡ false
        → (rows' : List ItemRow) → ItemUpdate allowed f id rows rows'
        → row ∷ rows' ≡ items'
        → ItemUpdate allowed f id (row ∷ rows) items'
    there e rows' u same = record {
      old = u.old;
      found = rw e u.found;
      is_allowed = u.is_allowed;
      written = rw (sym same, e) u.written;
      others = λ other n. rw (sym same, u.others other n) refl;
    }

pub record FileUpdate (allowed : FileRow → Bool) (f : FileRow → FileRow) (id : Bytes)
    (files files' : List FileRow) : Type 0 where
  pub old : FileRow
  pub found : get_content_file_for_scan id files ≡ some old
  pub is_allowed : allowed old ≡ true
  pub written : get_content_file_for_scan id files' ≡ some (f old)
  pub others :
      (other : Bytes)
      → other ≢ id
      → get_content_file_for_scan other files' ≡ get_content_file_for_scan other files

pub update_file-FileUpdate :
    (allowed : FileRow → Bool) (f : FileRow → FileRow) (id : Bytes) (files files' : List FileRow)
    → ((row : FileRow) → (f row).file_id ≡ row.file_id)
    → update_file allowed f id files ≡ ok files'
    → FileUpdate allowed f id files files'
unfolding update_file get_content_file_for_scan
update_file-FileUpdate allowed f id [] files' keeps h = cc
update_file-FileUpdate allowed f id (row ∷ rows) files' keeps h =
    elim (Bool-cases (bytes_eq row.file_id id)) [
      | inl e ↦ here e (Bool-cases (allowed row)) (rw e at h)
      | inr e ↦
          let (rows', h1, h2) = >>=-eq-ok (update_file allowed f id rows) _ (rw e at h) in
          there e rows' (update_file-FileUpdate allowed f id rows rows' keeps h1)
            (ok-injective _ _ h2)
    ]
  where
    here :
        bytes_eq row.file_id id ≡ true
        → (allowed row ≡ true) ⊎ (allowed row ≡ false)
        → (if allowed row then ok (f row ∷ rows) else err no_rows) ≡ ok files'
        → FileUpdate allowed f id (row ∷ rows) files'
    here e (inr n) h = absurd (cc (rw n at h))
    here e (inl y) h =
        let same : f row ∷ rows ≡ files' = ok-injective _ _ (rw y at h) in
        let id_is : row.file_id ≡ id = (bytes_eq_iff row.file_id id).0 e in
        record {
          old = row;
          found = rw e refl;
          is_allowed = y;
          written = rw (sym same, keeps row, e) refl;
          others = λ other n.
              rw (sym same, keeps row, bytes_eq_ne row.file_id other (λ q. n (sym q ∙ id_is))) refl;
        }

    there :
        bytes_eq row.file_id id ≡ false
        → (rows' : List FileRow) → FileUpdate allowed f id rows rows'
        → row ∷ rows' ≡ files'
        → FileUpdate allowed f id (row ∷ rows) files'
    there e rows' u same = record {
      old = u.old;
      found = rw e u.found;
      is_allowed = u.is_allowed;
      written = rw (sym same, e) u.written;
      others = λ other n. rw (sym same, u.others other n) refl;
    }

pub get_content_file_for_scan-id :
    (id : Bytes) (files : List FileRow) (row : FileRow)
    → get_content_file_for_scan id files ≡ some row
    → row.file_id ≡ id
unfolding get_content_file_for_scan
get_content_file_for_scan-id id [] row h = cc
get_content_file_for_scan-id id (x ∷ rows) row h = elim (Bool-cases (bytes_eq x.file_id id)) [
  | inl e ↦
      let same : some x ≡ some row = rw e at h in
      sym (ap (λ r. r.file_id) (some-injective _ _ same)) ∙ (bytes_eq_iff x.file_id id).0 e
  | inr e ↦ get_content_file_for_scan-id id rows row (rw e at h)
]
