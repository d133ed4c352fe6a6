-- ===== src/Store/Lists/Listings.antt =====
-- internal/store/store.go: the listings of targets is in order and shows what may be reached.
use sshgatew.Prelude.{ℕ, ◌≡◌, ◌∙◌, sym, Bool, true, ◌&&◌, any, ◌==◌}
use sshgatew.Prelude.Order.{order_by, IsOrdered, order_by-IsOrdered, count-order_by}
use sshgatew.Prelude.Texts.{Text}
use sshgatew.Store.Access.{ltb-count, authorized_targets-can_access}
use sshgatew.Store.Grants.{can_access_capability, authorized_targets}
use sshgatew.Store.Lists.{target_key, list_authorized_targets}
use sshgatew.Store.{User, Target, Db}

-- `ListAuthorizedTargets` is in the order of the names, and whoever passes the check of some
-- capability at a target finds an enabled target of that id in it.
pub list_authorized_targets_lem :
    (db : Db) (v : User)
    → IsOrdered target_key (list_authorized_targets db v)
      × ((tid : ℕ) (capability : Text)
          → can_access_capability db v tid capability ≡ true
          → any (λ x. x.id == tid && x.enabled) (list_authorized_targets db v) ≡ true)
unfolding list_authorized_targets
list_authorized_targets_lem db v = (
  order_by-IsOrdered target_key (authorized_targets db v),
  λ tid capability e.
      let p : Target → Bool = λ x. x.id == tid && x.enabled in
      sym (ltb-count p (order_by target_key (authorized_targets db v)))
      ∙ rw (count-order_by target_key p (authorized_targets db v)) (
          ltb-count p (authorized_targets db v)
          ∙ authorized_targets-can_access db v tid capability e),
)
