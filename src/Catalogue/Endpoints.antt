-- ===== src/Catalogue/Endpoints.antt =====
-- The endpoint of a server over the calls of the catalogue.
use mathlib.Core.List.{Memᴰ}
use mathlib.Core.Path.{subst}
use bee_ba.Common.{
  ◌&&◌, ap, ok, ok-injective, All-Memᴰ, IsKeyed, IsKeyed-Settled, find_where-holds, or_fail-eq-ok,
  >>=-eq-ok, or_fail, ◌%◌, ◌^◌, ◌==◌, ==_iff, ◌≡◌, ◌≢◌, refl, sym, ◌∙◌, Bool, true, false, List, [],
  ◌∷◌, update_where, find_where, Settled, Settled-update, Settled-update_other, Settled-insert,
  arith, any_where,
}
use bee_ba.Common.Text.{Bytes, bytes_eq, bytes_eq_iff}
use bee_ba.Catalogue.Listing.{Listing, Site, no_rows, ServerEnv}
use bee_ba.Catalogue.Statement.{is_server, is_owned}
use bee_ba.Catalogue.Owner.{
  requested_listing, deleted_listing, update_owned, delete_owned, request_verification,
  updated_listing,
}
use bee_ba.Catalogue.Create.{create_server}
use bee_ba.Catalogue.Check.{
  checked_listing, can_be_checked, ServerCheckTarget, get_check_target, complete_check,
}
use bee_ba.Catalogue.Admin.{AdminInput, admin_listing, set_admin_status}
use bee_ba.Catalogue.Run.{
  ServerOp, creates, updates, deletes, requests, schedules, completes, hides, restores, server_step,
  run_servers, item_after, site_after-keeps, item_after-keeps,
}
use bee_ba.Catalogue.Outcome.{
  create_server-ok, update_owned-ok, delete_owned-ok, request_verification-ok, complete_check-ok,
  set_admin_status-ok, enqueue_due_checks-listings,
}

-- An `UpdateOwned` of the server.
abbrev pub is_update_of : Bytes → ServerOp → Bool
is_update_of id (updates env owner x input) = bytes_eq x id
is_update_of id _ = false

abbrev has_endpoint : ServerCheckTarget → Listing → Bool
has_endpoint t l = bytes_eq l.host t.host && l.port % 2 ^ 16 == t.port

-- The server is listed with the endpoint of the target.
abbrev pub HasEndpoint : ServerCheckTarget → Bytes → Site → Type 0
HasEndpoint t id site = Settled (λ l. l.id) (has_endpoint t) id site.listings

-- A target is the endpoint of the server.
pub get_check_target-HasEndpoint :
    (id : Bytes) (site : Site) (t : ServerCheckTarget)
    → IsKeyed (λ l. l.id) site.listings
    → get_check_target id site ≡ ok t
    → HasEndpoint t id site
unfolding get_check_target
get_check_target-HasEndpoint id site t k h =
    let (l, found, h1) =
      >>=-eq-ok (or_fail (find_where (can_be_checked id) site.listings) no_rows) _ h in
    let (holds, m) =
      find_where-holds (can_be_checked id) site.listings l (or_fail-eq-ok _ _ l found) in
    let t_is : record { server_id = l.id; host = l.host; port = l.port % 2 ^ 16 } ≡ t =
      ok-injective _ _ h1 in
    let same : l.id ≡ id = (bytes_eq_iff l.id id).0 (ground (arith, holds)) in
    let host_is : l.host ≡ t.host = ap (λ x. x.host) t_is in
    let port_is : l.port % 2 ^ 16 ≡ t.port = ap (λ x. x.port) t_is in
    subst (λ x. Settled (λ l. l.id) (has_endpoint t) x site.listings) same
      (IsKeyed-Settled (λ l. l.id) (has_endpoint t) l site.listings k m
        (ground (
          arith,
          (bytes_eq_iff l.host t.host).1 host_is,
          (==_iff (l.port % 2 ^ 16) t.port).1 port_is,
        )))

module _ (t : ServerCheckTarget) (id : Bytes) where
  abbrev Stays : Site → Type 0
  Stays = HasEndpoint t id

  -- The updates that leave ids and endpoints alone.
  update-HasEndpoint :
      (p : Listing → Bool) (f : Listing → Listing) (site after : Site)
      → after.listings ≡ update_where p f site.listings
      → ((l : Listing) → (f l).id ≡ l.id)
      → ((l : Listing) → has_endpoint t (f l) ≡ has_endpoint t l)
      → Stays site
      → Stays after
  update-HasEndpoint p f site after e same keep h =
      rw e (
        Settled-update (λ l. l.id) (has_endpoint t) id p f site.listings same (λ l w. keep l ∙ w) h)

  by_admin :
      (env : ServerEnv) (hide : Bool) (input : AdminInput) (site : Site)
      → Stays site
      → Stays (item_after site (set_admin_status env hide input site))
  by_admin env hide input site h =
      item_after-keeps Stays site (set_admin_status env hide input site) h (λ item after q.
        update-HasEndpoint (is_server input.server_id) (admin_listing env hide) site after
          (set_admin_status-ok env hide input site item after q).0 (λ l. refl) (λ l. refl) h)

  step-HasEndpoint :
      (o : ServerOp) (site : Site)
      → is_update_of id o ≡ false
      → Stays site
      → Stays (server_step o site)
  unfolding server_step
  step-HasEndpoint (creates env input) site n h =
      item_after-keeps Stays site (create_server env input site) h (λ item after q.
        let (c, fresh, is, _) = create_server-ok env input site item after q in
        rw is (Settled-insert (λ l. l.id) (has_endpoint t) id _ site.listings fresh h))
  step-HasEndpoint (updates env owner x input) site n h =
      item_after-keeps Stays site (update_owned env owner x input site) h (λ item after q.
        let (c, is, _) = update_owned-ok env owner x input site item after q in
        rw is (
          Settled-update_other (λ l. l.id) (has_endpoint t) id (is_owned owner x)
            (updated_listing env input c) site.listings (λ l. refl)
            (λ l p same. other l x n (ground (arith, p)) same) h))
    where
      other : (l : Listing) (x : Bytes) → bytes_eq x id ≡ false → bytes_eq l.id x ≡ true → l.id ≢ id
      other l x n p same =
          let e : x ≡ id = sym ((bytes_eq_iff l.id x).0 p) ∙ same in
          absurd (cc ((bytes_eq_iff x id).1 e, n))
  step-HasEndpoint (deletes env owner x) site n h =
      site_after-keeps Stays site (delete_owned env owner x site) h (λ after q.
        update-HasEndpoint (is_owned owner x) (deleted_listing env) site after
          (delete_owned-ok env owner x site after q).0 (λ l. refl) (λ l. refl) h)
  step-HasEndpoint (requests env owner x) site n h =
      item_after-keeps Stays site (request_verification env owner x site) h (λ item after q.
        update-HasEndpoint (is_owned owner x) (requested_listing env) site after
          (request_verification-ok env owner x site item after q).0 (λ l. refl) (λ l. refl) h)
  step-HasEndpoint (schedules env locked i limit) site n h =
      rw (enqueue_due_checks-listings env locked i limit site) h
  step-HasEndpoint (completes env x r) site n h =
      site_after-keeps Stays site (complete_check env x r site) h (λ after q.
        update-HasEndpoint (can_be_checked x) (checked_listing env.now r) site after
          (complete_check-ok env x r site after q).0 (λ l. refl) (λ l. refl) h)
  step-HasEndpoint (hides env input) site n h = by_admin env true input site h
  step-HasEndpoint (restores env input) site n h = by_admin env false input site h

  pub run-HasEndpoint :
      (ops : List ServerOp) (site : Site)
      → any_where (is_update_of id) ops ≡ false
      → Stays site
      → Stays (run_servers ops site)
  unfolding run_servers
  run-HasEndpoint [] site n h = h
  run-HasEndpoint (o ∷ ops) site n h =
      run-HasEndpoint ops (server_step o site) (ground (arith, n))
        (step-HasEndpoint o site (ground (arith, n)) h)

-- The row with the id has the endpoint.
pub HasEndpoint-same :
    (t : ServerCheckTarget) (id : Bytes) (site : Site) (l : Listing)
    → HasEndpoint t id site
    → Memᴰ l site.listings
    → l.id ≡ id
    → (l.host ≡ t.host) × (l.port % 2 ^ 16 ≡ t.port)
HasEndpoint-same t id site l h m same =
    let holds : has_endpoint t l ≡ true =
      All-Memᴰ (λ x. x.id ≡ id → has_endpoint t x ≡ true) site.listings l h.settled m same in
    ((bytes_eq_iff l.host t.host).0 (ground (arith, holds)), (==_iff _ _).0 (ground (arith, holds)))
