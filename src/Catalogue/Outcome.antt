-- ===== src/Catalogue/Outcome.antt =====
-- What the calls of the server catalogue that succeed make of the listings and of the jobs.
use bee_ba.Common.{
  ◌≡◌, ◌⊎◌, refl, sym, ap, ◌∙◌, inl, inr, Bool, true, false, not, Option, none, some, List, [], ◌∷◌,
  ok, ◌||◌, ◌==◌, Bool-cases, any_where, update_where, find_where, >>=-eq-ok, >>-eq-ok, fail_if,
  fail_if-eq-ok, or_fail, ok-injective,
}
use bee_ba.Common.Text.{Bytes, bytes_eq}
use bee_ba.Catalogue.Listing.{
  CheckResult, Listing, TagInput, Site, ServerEnv, no_rows, unique_violation, foreign_key_violation,
}
use bee_ba.Catalogue.Statement.{
  is_server, is_owned, set_listings, enqueue_server_check, link_tags, replace_server_tags,
  encrypt_optional, decrypt_optional, OwnerItem, get_owned_server,
}
use bee_ba.Catalogue.Owner.{
  UpdateServer, given, new_ciphertext, new_host, new_port, endpoint_changed, update_tags,
  updated_listing, check_again, update_owned, deleted_listing, delete_owned, requested_listing,
  request_verification,
}
use bee_ba.Catalogue.Create.{
  CreateServer, new_listing, insert_listing, check_endpoint, check_row, create_server,
}
use bee_ba.Common.Int.{ℤ, pos, negsuc}
use bee_ba.Catalogue.Check.{
  Intervals, enqueue_due_checks, can_be_checked, checked_listing, complete_check,
}
use bee_ba.Catalogue.Admin.{AdminInput, admin_listing, set_admin_status}

-- The jobs are as before, or the check of one server was enqueued.
abbrev pub Enqueued : Site → Site → Type 0
Enqueued site after =
    (after.jobs ≡ site.jobs)
    ⊎ ((env : ServerEnv) × (id : Bytes) × (after.jobs ≡ (enqueue_server_check env id site).jobs))

link_tags-same :
    (id : Bytes) (ts : List TagInput) (site : Site)
    → ((link_tags id ts site).listings ≡ site.listings) × ((link_tags id ts site).jobs ≡ site.jobs)
unfolding link_tags
link_tags-same id [] site = (refl, refl)
link_tags-same id (t ∷ ts) site = link_tags-same id ts _

replace_server_tags-same :
    (id : Bytes) (ts : List TagInput) (site : Site)
    → ((replace_server_tags id ts site).listings ≡ site.listings)
      × ((replace_server_tags id ts site).jobs ≡ site.jobs)
unfolding replace_server_tags
replace_server_tags-same id ts site = link_tags-same id ts _

update_tags-same :
    (id : Bytes) (tags : Option (List TagInput)) (site : Site)
    → ((update_tags id tags site).listings ≡ site.listings)
      × ((update_tags id tags site).jobs ≡ site.jobs)
update_tags-same id none site = (refl, refl)
update_tags-same id (some tags) site = replace_server_tags-same id tags site

enqueue-listings :
    (env : ServerEnv) (id : Bytes) (site : Site)
    → (enqueue_server_check env id site).listings ≡ site.listings
unfolding enqueue_server_check
enqueue-listings env id site = refl

-- Only the jobs of the site count.
enqueue-jobs :
    (env : ServerEnv) (id : Bytes) (a b : Site)
    → a.jobs ≡ b.jobs
    → (enqueue_server_check env id a).jobs ≡ (enqueue_server_check env id b).jobs
unfolding enqueue_server_check
enqueue-jobs env id a b e = rw e refl

check_again-ok :
    (env : ServerEnv) (changed : Bool) (id : Bytes) (site old after : Site)
    → after ≡ check_again env changed id site
    → site.jobs ≡ old.jobs
    → (after.listings ≡ site.listings) × Enqueued old after
check_again-ok env true id site old after is e = (
  ap (λ s. s.listings) is ∙ enqueue-listings env id site,
  inr (env, id, ap (λ s. s.jobs) is ∙ enqueue-jobs env id site old e),
)
check_again-ok env false id site old after is e =
    (ap (λ s. s.listings) is, inl (ap (λ s. s.jobs) is ∙ e))

pub create_server-ok :
    (env : ServerEnv) (input : CreateServer) (site : Site) (item : OwnerItem) (after : Site)
    → create_server env input site ≡ ok (item, after)
    → (ciphertext : Bytes) × (any_where (λ x. bytes_eq x.id env.server_id) site.listings ≡ false)
      × (after.listings ≡ new_listing env input ciphertext ∷ site.listings)
      × Enqueued site after
unfolding create_server
create_server-ok env input site item after h =
    let (_, h1) = >>-eq-ok (check_endpoint env input.host input.port input.password) _ h in
    let (c, _, h2) = >>=-eq-ok (encrypt_optional env input.password) _ h1 in
    let l = new_listing env input c in
    let (_, h3) = >>-eq-ok (check_row env l site) _ h2 in
    let (free, h4) =
      >>-eq-ok (fail_if (any_where (λ x. bytes_eq x.id l.id) site.listings) unique_violation) _
        h3 in
    let tagged = replace_server_tags l.id input.tags (insert_listing l site) in
    let site1 = enqueue_server_check env l.id tagged in
    let (_, _, h5) = >>=-eq-ok (get_owned_server env input.owner_id l.id site1) _ h4 in
    let after_is : after ≡ site1 = cc h5 in
    let (listings, jobs) = replace_server_tags-same l.id input.tags (insert_listing l site) in
    let (same, enqueued) = check_again-ok env true l.id tagged site after after_is jobs in
    (c, (fail_if-eq-ok _ _).0 free, same ∙ listings, enqueued)

pub update_owned-ok :
    (env : ServerEnv) (owner id : Bytes) (input : UpdateServer) (site : Site) (item : OwnerItem)
    (after : Site)
    → update_owned env owner id input site ≡ ok (item, after)
    → (ciphertext : Option Bytes) × (after.listings
        ≡ update_where (is_owned owner id) (updated_listing env input ciphertext) site.listings)
      × Enqueued site after
unfolding update_owned
update_owned-ok env owner id input site item after h =
    let (before, _, h1) = >>=-eq-ok (get_owned_server env owner id site) _ h in
    let (c, _, h2) =
      >>=-eq-ok (new_ciphertext env input.password before.row.password_ciphertext) _ h1 in
    let (_, h3) =
      >>-eq-ok
        (check_endpoint env (new_host env input before.row) (new_port input before.row)
          (given (λ p. p) input.password before.password))
        _ h2 in
    let (_, h4) = >>-eq-ok (check_row env (updated_listing env input c before.row) site) _ h3 in
    let set = set_listings (is_owned owner id) (updated_listing env input c) site in
    let site1 = update_tags id input.tags set in
    let changed = endpoint_changed env input c before.row in
    let site2 = check_again env changed id site1 in
    let (_, _, h5) = >>=-eq-ok (get_owned_server env owner id site2) _ h4 in
    let after_is : after ≡ site2 = cc h5 in
    let (listings, jobs) = update_tags-same id input.tags set in
    let (same, maybe) = check_again-ok env changed id site1 site after after_is jobs in
    (c, same ∙ listings, maybe)

pub delete_owned-ok :
    (env : ServerEnv) (owner id : Bytes) (site after : Site)
    → delete_owned env owner id site ≡ ok after
    → (after.listings ≡ update_where (is_owned owner id) (deleted_listing env) site.listings)
      × (after.jobs ≡ site.jobs)
unfolding delete_owned
delete_owned-ok env owner id site after h =
    let (_, h1) =
      >>-eq-ok (fail_if (not (any_where (is_owned owner id) site.listings)) no_rows) _ h in
    let after_is : after ≡ set_listings (is_owned owner id) (deleted_listing env) site = cc h1 in
    rw after_is (refl, refl)

pub request_verification-ok :
    (env : ServerEnv) (owner id : Bytes) (site : Site) (item : OwnerItem) (after : Site)
    → request_verification env owner id site ≡ ok (item, after)
    → (after.listings ≡ update_where (is_owned owner id) (requested_listing env) site.listings)
      × Enqueued site after
unfolding request_verification
request_verification-ok env owner id site item after h =
    let (_, h1) =
      >>-eq-ok (fail_if (not (any_where (is_owned owner id) site.listings)) no_rows) _ h in
    let set = set_listings (is_owned owner id) (requested_listing env) site in
    let site1 = enqueue_server_check env id set in
    let (_, _, h2) = >>=-eq-ok (get_owned_server env owner id site1) _ h1 in
    check_again-ok env true id set site after (cc h2) refl

pub complete_check-ok :
    (env : ServerEnv) (id : Bytes) (r : CheckResult) (site after : Site)
    → complete_check env id r site ≡ ok after
    → (after.listings ≡ update_where (can_be_checked id) (checked_listing env.now r) site.listings)
      × (after.jobs ≡ site.jobs)
unfolding complete_check
complete_check-ok env id r site after h =
    let (_, h1) =
      >>-eq-ok
        (fail_if (not (any_where (λ l. bytes_eq l.id id) site.listings)) foreign_key_violation) _
        h in
    let after_is : after
        ≡ set_listings (can_be_checked id) (checked_listing env.now r)
            (record site { checks = (id, r) ∷ site.checks }) =
      cc h1 in
    rw after_is (refl, refl)

pub set_admin_status-ok :
    (env : ServerEnv) (hide : Bool) (input : AdminInput) (site : Site) (item : OwnerItem)
    (after : Site)
    → set_admin_status env hide input site ≡ ok (item, after)
    → (after.listings
        ≡ update_where (is_server input.server_id) (admin_listing env hide) site.listings)
      × (after.jobs ≡ site.jobs)
unfolding set_admin_status
set_admin_status-ok env hide input site item after h =
    let named : Listing → Bool = λ l. bytes_eq l.id input.server_id in
    let set = set_listings (is_server input.server_id) (admin_listing env hide) site in
    let (before, _, h1) = >>=-eq-ok (or_fail (find_where named site.listings) no_rows) _ h in
    let (row, _, h2) = >>=-eq-ok (or_fail (find_where named set.listings) no_rows) _ h1 in
    let (_, _, h3) = >>=-eq-ok (decrypt_optional env row.password_ciphertext) _ h2 in
    (
      ap (λ s. s.listings) (sym (ap (λ r. r.1) (ok-injective _ _ h3))),
      ap (λ s. s.jobs) (sym (ap (λ r. r.1) (ok-injective _ _ h3))),
    )

pub enqueue_due_checks-listings :
    (env : ServerEnv) (locked : Bool) (i : Intervals) (limit : ℤ) (site : Site)
    → (enqueue_due_checks env locked i limit site).1.listings ≡ site.listings
unfolding enqueue_due_checks
enqueue_due_checks-listings env locked i (negsuc n) site = refl
enqueue_due_checks-listings env locked i (pos n) site = elim (Bool-cases (n == 0 || not locked)) [
  | inl e ↦ rw e refl
  | inr e ↦ rw e refl
]
