-- ===== src/Auth/Requests.antt =====
-- What the roles may do.
use opc_platform.Prelude.{
  String, false, not, ◌&&◌, ◌≡◌, ◌⊎◌, inl, inr, arith, str_eq, eq_iff, lookup, Bool-cases,
}
use opc_platform.Auth.{role_admin, role_operator, role_viewer, allows, has_permission}

-- A viewer may do what an operator may, and an operator what an admin may; other roles may nothing.
pub has_permission-roles :
    (role resource action : String)
    → ((has_permission role_viewer resource action
          && not (has_permission role_operator resource action))
        ≡ false)
      × ((has_permission role_operator resource action
            && not (has_permission role_admin resource action))
          ≡ false)
      × ((has_permission role resource action ≡ false)
          ⊎ ((role ≡ role_admin) ⊎ ((role ≡ role_operator) ⊎ (role ≡ role_viewer))))
unfolding has_permission lookup allows
has_permission-roles role resource action = (
  ground arith,
  ground arith,
  elim (Bool-cases (str_eq role_admin role)) [
    | inl admin ↦ inr (inl (ground (arith, eq_iff role_admin role, admin)))
    | inr not_admin ↦ elim (Bool-cases (str_eq role_operator role)) [
      | inl operator ↦ inr (inr (inl (ground (arith, eq_iff role_operator role, operator))))
      | inr not_operator ↦ elim (Bool-cases (str_eq role_viewer role)) [
        | inl viewer ↦ inr (inr (inr (ground (arith, eq_iff role_viewer role, viewer))))
        | inr not_viewer ↦ inl (ground (arith, not_admin, not_operator, not_viewer))
      ]
    ]
  ],
)
