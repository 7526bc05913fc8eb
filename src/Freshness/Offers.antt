-- ===== src/Freshness/Offers.antt =====
-- When src-tauri/src/browser_freshness.rs says that a capture is available.
use duegood.Base.{
  ℕ, Bool, true, false, ◌&&◌, ◌==◌, Option, none, some, some_and, Bool-cases, ◌≡◌, refl, inl, inr,
  arith,
}
use duegood.CaptureRun.State.{is_captured, Attempt}
use duegood.CaptureRun.Guard.{Summary}
use duegood.Freshness.Sections.{BrowserFreshness}
use duegood.Freshness.Available.{
  ExistingAccountBinding, unbound, unverifiable, bound, unavailable, bound_state, summarized,
  unverified, is_summary_of, with_capture_availability,
}

abbrev pub offers : BrowserFreshness → Bool
offers f = some_and (λ a. a.available) f.capture_availability

-- the binding admits a user
unfoldable pub admits : ExistingAccountBinding → ℕ → Bool
admits unbound user_id = true
admits unverifiable user_id = false
admits (bound id) user_id = id == user_id

bound_state-admits :
    (binding : ExistingAccountBinding) (user_id : ℕ)
    → (bound_state binding user_id).0 ≡ admits binding user_id
unfolding bound_state admits
bound_state-admits unbound user_id = refl
bound_state-admits unverifiable user_id = refl
bound_state-admits (bound id) user_id = ground arith

-- what makes a capture available
unfoldable pub is_offered : Bool → Option Attempt → Option Summary → ExistingAccountBinding → Bool
is_offered read_ok attempt summary binding =
    read_ok
    && some_and
        (λ a.
          is_captured a.status
          && some_and (λ s. is_summary_of a s && admits binding s.user_id) summary)
        attempt

-- A capture is available exactly when the attempt could be read, it is captured, there is a summary
-- of its user and generation, and the account is unbound or bound to that user.
pub with_capture_availability-offers :
    (f : BrowserFreshness) (read_ok : Bool) (attempt : Option Attempt) (summary : Option Summary)
    (binding : ExistingAccountBinding)
    → offers (with_capture_availability f read_ok attempt summary binding)
      ≡ is_offered read_ok attempt summary binding
unfolding with_capture_availability unavailable summarized unverified is_offered
with_capture_availability-offers f false attempt summary binding = refl
with_capture_availability-offers f true none summary binding = refl
with_capture_availability-offers f true (some a) none binding = ground arith
with_capture_availability-offers f true (some a) (some s) binding =
    ground (arith, bound_state-admits binding s.user_id)

-- A freshness that is current beside a captured attempt that could be read was current before, and
-- there is a summary of the attempt's user and generation.
pub with_capture_availability-current :
    (f : BrowserFreshness) (a : Attempt) (summary : Option Summary)
    (binding : ExistingAccountBinding)
    → is_captured a.status ≡ true
    → (with_capture_availability f true (some a) summary binding).current ≡ true
    → (f.current ≡ true) × (some_and (is_summary_of a) summary ≡ true)
unfolding with_capture_availability unverified
with_capture_availability-current f a none binding c h = ground arith
with_capture_availability-current f a (some s) binding c h = elim (Bool-cases (is_summary_of a s)) [
  | inl e ↦ (ground (arith, c, e), ground (arith, e))
  | inr e ↦ ground (arith, c, e)
]
