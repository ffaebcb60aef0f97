-- ===== src/Catalogue/Hidden.antt =====
-- A listing that an admin has hidden, or that its owner has deleted, stays out of sight.
use bee_ba.Common.{
  ◌≡◌, ◌≢◌, refl, sym, ◌∙◌, Bool, true, false, ◌||◌, not, none, List, [], ◌∷◌, err, inl, inr, ◌⊎◌,
  is_null, update_where, find_where, find_where-none, All, All-map, Settled, Settled-update,
  Settled-update_other, Settled-insert, arith,
}
use bee_ba.Common.Text.{Bytes, bytes_eq_iff}
use bee_ba.Catalogue.Listing.{Listing, Site, no_rows, ServerEnv}
use bee_ba.Catalogue.Statement.{is_server, is_owned}
use bee_ba.Catalogue.Owner.{update_owned, deleted_listing, delete_owned, request_verification}
use bee_ba.Catalogue.Create.{create_server}
use bee_ba.Catalogue.Check.{complete_check}
use bee_ba.Catalogue.Admin.{AdminInput, admin_listing, set_admin_status, get_published, is_public}
use bee_ba.Catalogue.Run.{
  ServerOp, creates, updates, deletes, requests, schedules, completes, hides, restores, server_step,
  run_servers, item_after, site_after-keeps, item_after-keeps,
}
use bee_ba.Catalogue.Outcome.{
  create_server-ok, update_owned-ok, delete_owned-ok, request_verification-ok, complete_check-ok,
  set_admin_status-ok, enqueue_due_checks-listings,
}

-- Hidden or deleted.
abbrev pub is_withdrawn : Listing → Bool
is_withdrawn l = not (is_null l.hidden_at) || not (is_null l.deleted_at)

-- The server is listed, and is hidden or deleted.
abbrev pub IsWithdrawn : Bytes → Site → Type 0
IsWithdrawn id site = Settled (λ l. l.id) is_withdrawn id site.listings

-- The call is not a `Restore` of the server.
abbrev pub NoRestore : Bytes → ServerOp → Type 0
NoRestore id (restores env input) = input.server_id ≢ id
NoRestore id _ = Unit {0}

module _ (id : Bytes) where
  -- The updates that leave hidden_at and deleted_at alone, or set them.
  update-IsWithdrawn :
      (p : Listing → Bool) (f : Listing → Listing) (site after : Site)
      → after.listings ≡ update_where p f site.listings
      → ((l : Listing) → (f l).id ≡ l.id)
      → ((l : Listing) → is_withdrawn l ≡ true → is_withdrawn (f l) ≡ true)
      → IsWithdrawn id site
      → IsWithdrawn id after
  update-IsWithdrawn p f site after e same keep h =
      rw e (Settled-update (λ l. l.id) is_withdrawn id p f site.listings same keep h)

  by_admin :
      (env : ServerEnv) (hide : Bool) (input : AdminInput) (site : Site)
      → hide ≡ true ⊎ input.server_id ≢ id
      → IsWithdrawn id site
      → IsWithdrawn id (item_after site (set_admin_status env hide input site))
  by_admin env hide input site allowed h =
      item_after-keeps (IsWithdrawn id) site (set_admin_status env hide input site) h
        (λ item after q.
          let (is, _) = set_admin_status-ok env hide input site item after q in
          elim allowed [
            | inl hides_it ↦
                update-IsWithdrawn (is_server input.server_id) (admin_listing env hide) site after
                  is (λ l. refl) (λ l w. rw hides_it (ground arith)) h
            | inr other ↦ rw is (
                Settled-update_other (λ l. l.id) is_withdrawn id (is_server input.server_id)
                  (admin_listing env hide) site.listings (λ l. refl)
                  (λ l p same.
                    other (sym ((bytes_eq_iff l.id input.server_id).0 (ground (arith, p))) ∙ same))
                  h)
          ])

  step-IsWithdrawn :
      (o : ServerOp) (site : Site)
      → NoRestore id o
      → IsWithdrawn id site
      → IsWithdrawn id (server_step o site)
  unfolding server_step
  step-IsWithdrawn (creates env input) site n h =
      item_after-keeps (IsWithdrawn id) site (create_server env input site) h (λ item after q.
        let (c, fresh, is, _) = create_server-ok env input site item after q in
        rw is (Settled-insert (λ l. l.id) is_withdrawn id _ site.listings fresh h))
  step-IsWithdrawn (updates env owner x input) site n h =
      item_after-keeps (IsWithdrawn id) site (update_owned env owner x input site) h
        (λ item after q.
          let (c, is, _) = update_owned-ok env owner x input site item after q in
          update-IsWithdrawn _ _ site after is (λ l. refl) (λ l w. w) h)
  step-IsWithdrawn (deletes env owner x) site n h =
      site_after-keeps (IsWithdrawn id) site (delete_owned env owner x site) h (λ after q.
        update-IsWithdrawn (is_owned owner x) (deleted_listing env) site after
          (delete_owned-ok env owner x site after q).0 (λ l. refl) (λ l w. ground arith) h)
  step-IsWithdrawn (requests env owner x) site n h =
      item_after-keeps (IsWithdrawn id) site (request_verification env owner x site) h
        (λ item after q.
          update-IsWithdrawn _ _ site after
            (request_verification-ok env owner x site item after q).0 (λ l. refl) (λ l w. w) h)
  step-IsWithdrawn (schedules env locked i limit) site n h =
      rw (enqueue_due_checks-listings env locked i limit site) h
  step-IsWithdrawn (completes env x r) site n h =
      site_after-keeps (IsWithdrawn id) site (complete_check env x r site) h (λ after q.
        update-IsWithdrawn _ _ site after (complete_check-ok env x r site after q).0 (λ l. refl)
          (λ l w. w) h)
  step-IsWithdrawn (hides env input) site n h = by_admin env true input site (inl refl) h
  step-IsWithdrawn (restores env input) site n h = by_admin env false input site (inr n) h

  run-IsWithdrawn :
      (ops : List ServerOp) (site : Site)
      → All (NoRestore id) ops
      → IsWithdrawn id site
      → IsWithdrawn id (run_servers ops site)
  unfolding run_servers
  run-IsWithdrawn [] site n h = h
  run-IsWithdrawn (o ∷ ops) site n h =
      run-IsWithdrawn ops (server_step o site) n.1 (step-IsWithdrawn o site n.0 h)

-- A server whose listing is hidden or deleted is not found by `GetPublished` after any calls of which
-- none is a `Restore` of it: requests for verification, new endpoints and checks that find it online
-- included.
pub run_servers-get_published :
    (id : Bytes) (ops : List ServerOp) (env : ServerEnv) (site : Site)
    → IsWithdrawn id site
    → All (NoRestore id) ops
    → get_published env id (run_servers ops site) ≡ err no_rows
unfolding get_published
run_servers-get_published id ops env site h n =
    let w = run-IsWithdrawn id ops site n h in
    let gone : find_where (is_public id) (run_servers ops site).listings ≡ none =
      find_where-none (is_public id) _ (
        All-map _ _ (run_servers ops site).listings
          (λ l q. ground (arith, (bytes_eq_iff l.id id).0, q)) w.settled) in
    rw gone refl
