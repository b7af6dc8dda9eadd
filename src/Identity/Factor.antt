-- ===== src/Identity/Factor.antt =====
-- The second factor of backend/internal/modules/identity, and the copy of a user in the cache.
use merope.Prelude.{
  ℕ, ◌+◌, ◌<◌, ◌≡◌, refl, ap, arith, Bool, true, false, not, ◌&&◌, none, some, List, [], ◌∷◌,
  String, ◌==◌, ==_iff, Bool-cases, inl, inr, if◌then◌else◌,
}
use merope.Prelude.Outcome.{ok}
use merope.Identity.Accounts.{
  User, State, Faults, find_user, change, get_user_by_id, live, in_json, hour, update_mfa,
}
use merope.Identity.Service.{Env, setup_mfa, keep_secret, verify_mfa, check_code}
use merope.Identity.Lockout.{cached_copy}

-- A call whose cache and statements work.
pub record Well (f : Faults) : Type 0 where
  pub cache_up : f.cache_up ≡ true
  pub rereads : f.rereads ≡ true
  pub updates : f.updates ≡ true

-- The state after the user was read from the table.
abbrev cached_state : ℕ → ℕ → User → State → State
cached_state now id u s = record s {
  cache = λ k. if k == id then some (in_json u, now + hour) else s.cache k;
}

fresh_read :
    (now id : ℕ) (s : State) (u : User)
    → live now (s.cache id) ≡ none
    → find_user id s.users ≡ some u
    → get_user_by_id true true now id s ≡ (some u, cached_state now id u s)
unfolding get_user_by_id
fresh_read now id s u stale row = rw (stale, row, get_user_by_id) refl

find_user-change :
    (id : ℕ) (g : User → User) (users : List User) (u : User)
    → find_user id users ≡ some u
    → ((r : User) → (g r).id ≡ r.id)
    → find_user id (change id g users) ≡ some (g u)
unfolding find_user change
find_user-change id g [] u h same = absurd (cc)
find_user-change id g (r ∷ rs) u h same = elim (Bool-cases (r.id == id)) [
  | inl here ↦
      let e : r ≡ u = ground arith in
      let mine : ((g r).id == id) ≡ true = rw (same r) here in
      rw here (rw mine (ap (λ (x : User). some (g x)) e))
  | inr other ↦
      let rest = find_user-change id g rs u (ground arith) same in rw other (rw other rest)
]

-- What a code does to the row when the copy in the cache was made before the set-up.
abbrev pub forgotten_row : Bool → String → User → User
forgotten_row passes key u =
    if passes && not u.mfa_enabled
    then record u { mfa_enabled = true; mfa_secret = "" }
    else record u { mfa_enabled = false; mfa_secret = key }

check_copy :
    (env : Env) (g : Faults) (later id : ℕ) (key code : String) (u : User) (s : State)
    → g.updates ≡ true
    → find_user id s.users ≡ some (record u { mfa_enabled = false; mfa_secret = key })
    → ((check_code env g later id code (some (in_json u), s)).0 ≡ ok (env.totp_valid later code ""))
      × (find_user id (check_code env g later id code (some (in_json u), s)).1.users
          ≡ some (forgotten_row (env.totp_valid later code "") key u))
unfolding check_code
check_copy env g later id key code u s works row =
    elim (Bool-cases (env.totp_valid later code "")) [
      | inr fails ↦ rw (fails, check_code) (refl, row)
      | inl passes ↦ elim (Bool-cases u.mfa_enabled) [
        | inl on ↦ rw (passes, check_code) (rw on (refl, row))
        | inr off ↦
            rw (passes, check_code)
              (rw off (
                rw works (
                  refl,
                  find_user-change id (λ r. record r { mfa_enabled = true; mfa_secret = "" })
                      s.users (record u { mfa_enabled = false; mfa_secret = key }) row (λ r. refl),
                )))
      ]
    ]

-- When the cache and the statements work, within an hour after a set-up of the second factor that read the
-- user from the table, the `VerifyMFA` that comes next checks its code against the empty secret, whatever
-- secret the set-up answered. A code that passes turns the second factor on with the empty secret, if it was
-- off before the set-up; in every other case it is off and the new secret stays.
pub setup_is_forgotten :
    (env : Env) (f g : Faults) (now later id : ℕ) (key code : String) (u : User) (s : State)
    → Well f
    → Well g
    → live now (s.cache id) ≡ none
    → find_user id s.users ≡ some u
    → later < now + hour
    → ((setup_mfa f now id (some key) s).0 ≡ ok key)
      × ((verify_mfa env g later id code (setup_mfa f now id (some key) s).1).0
          ≡ ok (env.totp_valid later code ""))
      × (find_user id (verify_mfa env g later id code (setup_mfa f now id (some key) s).1).1.users
          ≡ some (forgotten_row (env.totp_valid later code "") key u))
unfolding setup_mfa verify_mfa
setup_is_forgotten env f g now later id key code u s w v stale row soon =
    let read : get_user_by_id f.cache_up f.rereads now id s ≡ (some u, cached_state now id u s) =
      rw (w.cache_up, w.rereads) (fresh_read now id s u stale row) in
    let kept : State = update_mfa true id false key (cached_state now id u s) in
    let set : setup_mfa f now id (some key) s ≡ (ok key, kept) =
      rw (read, setup_mfa) (rw (w.updates, keep_secret) refl) in
    let self : (id == id) ≡ true = (==_iff id id).1 refl in
    let copy : kept.cache id ≡ some (in_json u, now + hour) = rw self refl in
    let cached : get_user_by_id g.cache_up g.rereads later id kept ≡ (some (in_json u), kept) =
      rw v.cache_up (cached_copy g.rereads later id (now + hour) kept (in_json u) copy soon) in
    let secret_row : find_user id kept.users
        ≡ some (record u { mfa_enabled = false; mfa_secret = key }) =
      find_user-change id (λ r. record r { mfa_enabled = false; mfa_secret = key }) s.users u row
        (λ r. refl) in
    let checked = check_copy env g later id key code u kept v.updates secret_row in
    let verified : verify_mfa env g later id code kept
        ≡ check_code env g later id code (some (in_json u), kept) =
      rw (cached, verify_mfa) refl in
    rw set (refl, rw verified checked.0, rw verified checked.1)
