-- ===== src/Catalogue/Run.antt =====
-- The server catalogue over time: its calls in any order, each of which takes effect as a whole or
-- not at all.
use bee_ba.Common.{◌≡◌, refl, Bool, List, [], ◌∷◌, Result, ok, err}
use bee_ba.Common.Int.{ℤ}
use bee_ba.Common.Text.{Bytes}
use bee_ba.Catalogue.Listing.{CheckResult, Site, ServerError, ServerEnv}
use bee_ba.Catalogue.Owner.{UpdateServer, update_owned, delete_owned, request_verification}
use bee_ba.Catalogue.Create.{CreateServer, create_server}
use bee_ba.Catalogue.Check.{complete_check, Intervals, enqueue_due_checks}
use bee_ba.Catalogue.Admin.{AdminInput, hide, restore, set_admin_status}

pub data ServerOp : Type 0 where
  creates : ServerEnv → CreateServer → ServerOp
  updates : ServerEnv → Bytes → Bytes → UpdateServer → ServerOp
  deletes : ServerEnv → Bytes → Bytes → ServerOp
  requests : ServerEnv → Bytes → Bytes → ServerOp
  schedules : ServerEnv → Bool → Intervals → ℤ → ServerOp
  completes : ServerEnv → Bytes → CheckResult → ServerOp
  hides : ServerEnv → AdminInput → ServerOp
  restores : ServerEnv → AdminInput → ServerOp

-- A transaction that fails is rolled back.
abbrev pub site_after : Site → Result ServerError Site → Site
site_after site (err e) = site
site_after site (ok after) = after

module _ {A : Type 0} where
  abbrev pub item_after : Site → Result ServerError (A × Site) → Site
  item_after site (err e) = site
  item_after site (ok (a, after)) = after

-- What holds before a call, and after each success of it, holds after it.
pub site_after-keeps :
    (R : Site → Type 0) (site : Site) (r : Result ServerError Site)
    → R site
    → ((after : Site) → r ≡ ok after → R after)
    → R (site_after site r)
site_after-keeps R site (err e) h keep = h
site_after-keeps R site (ok after) h keep = keep after refl

pub item_after-keeps :
    {A : Type 0} (R : Site → Type 0) (site : Site) (r : Result ServerError (A × Site))
    → R site
    → ((item : A) (after : Site) → r ≡ ok (item, after) → R after)
    → R (item_after site r)
item_after-keeps R site (err e) h keep = h
item_after-keeps R site (ok (item, after)) h keep = keep item after refl

unfoldable pub server_step : ServerOp → Site → Site
unfolding set_admin_status
server_step (creates env input) site = item_after site (create_server env input site)
server_step (updates env owner id input) site =
    item_after site (update_owned env owner id input site)
server_step (deletes env owner id) site = site_after site (delete_owned env owner id site)
server_step (requests env owner id) site = item_after site (request_verification env owner id site)
server_step (schedules env locked i limit) site = (enqueue_due_checks env locked i limit site).1
server_step (completes env id r) site = site_after site (complete_check env id r site)
server_step (hides env input) site = item_after site (hide env input site)
server_step (restores env input) site = item_after site (restore env input site)

unfoldable pub run_servers : List ServerOp → Site → Site
unfolding server_step
run_servers [] site = site
run_servers (o ∷ ops) site = run_servers ops (server_step o site)
