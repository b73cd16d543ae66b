-- ===== src/Service/Session/Timeouts.antt =====
-- Which sessions the sweep of the store removes.
use obmc_webapp.Prelude.{
  ℕ, ◌+◌, ◌*◌, ◌^◌, ◌%◌, ◌≤◌, ◌<◌, String, ◌≡◌, ◌↔◌, ◌⊎◌, refl, sym, ◌∙◌, Bool, true, false, not,
  inl, inr, List, [], ◌∷◌, ◌++◌, arith, Bool-cases, ltb, select, append_assoc, append-nil,
}
use obmc_webapp.Prelude.Membership.{In, In-of_In-select, In-select}
use obmc_webapp.Prelude.Integers.{ℤ, pos}
use obmc_webapp.Service.Session.User.{UserSession}
use obmc_webapp.Service.Session.Store.{
  SessionStore, second, nanoseconds, has_passed, is_expired, is_due, visit_entry, erase_expired,
  apply_session_timeouts,
}

abbrev pub Entry : Type 0
Entry = String × UserSession

-- The test by which a sweep keeps an entry.
abbrev pub is_kept : ℤ → ℕ → Entry → Bool
is_kept timeout now e = not (is_expired timeout now e.1.last_updated)

-- The loop with its iterator erases what a filter leaves out.
pub erase_expired-select :
    (timeout : ℤ) (now : ℕ) (passed entries : List Entry)
    → erase_expired timeout now passed entries ≡ passed ++ select (is_kept timeout now) entries
unfolding erase_expired visit_entry
erase_expired-select timeout now passed [] = sym (append-nil passed)
erase_expired-select timeout now passed (e ∷ rest) =
    elim (Bool-cases (is_expired timeout now e.1.last_updated)) [
      | inl old ↦ rw old (erase_expired-select timeout now passed rest)
      | inr live ↦ rw live (
          erase_expired-select timeout now (passed ++ (e ∷ [])) rest
          ∙ append_assoc passed (e ∷ []) (select (is_kept timeout now) rest))
    ]

either : {A B C D : Type 0} → A ⊎ B → (A → C) → (B → D) → C ⊎ D
either (inl a) f g = inl (f a)
either (inr b) f g = inr (g b)

-- What the sweep keeps, as the program's own tests have it.
pub mem-apply_session_timeouts :
    (s : SessionStore) (now : ℕ) (e : String × UserSession)
    → In e (apply_session_timeouts s now).auth_tokens ↔ (
        In e s.auth_tokens
        × ((is_due s now ≡ false) ⊎ (is_expired s.timeout_in_seconds now e.1.last_updated ≡ false)))
unfolding apply_session_timeouts
mem-apply_session_timeouts s now e = elim (Bool-cases (is_due s now)) [
  | inl due ↦
      let kept = is_kept s.timeout_in_seconds now in
      rw (due, erase_expired-select s.timeout_in_seconds now [] s.auth_tokens)
        (
          λ m. let (there, k) = In-of_In-select kept s.auth_tokens m in (there, inr (ground arith)),
          λ h. In-select kept s.auth_tokens h.0 (ground arith),
        )
  | inr fresh ↦ rw fresh (λ m. (m, inl refl), λ h. h.0)
]

-- A timeout below 2 ^ 63 nanoseconds is converted without a wrap-around.
nanoseconds_exact :
    (seconds : ℕ) → seconds * second < 2 ^ 63 → nanoseconds (pos seconds) ≡ pos (seconds * second)
unfolding nanoseconds
nanoseconds_exact seconds h =
    let same : seconds * second % 2 ^ 64 ≡ seconds * second = omega (arith, h) in
    let below : ltb (seconds * second) (2 ^ 63) ≡ true = ground (arith, h) in rw (same, below) refl

pub is_expired-eq-false_iff :
    (timeout : ℤ) (seconds now last : ℕ)
    → timeout ≡ pos seconds
    → seconds * second < 2 ^ 63
    → (is_expired timeout now last ≡ false) ↔ (now < last + seconds * second)
unfolding is_expired has_passed
is_expired-eq-false_iff timeout seconds now last e h =
    rw (e, nanoseconds_exact seconds h) (λ k. ground (arith, k), λ k. ground (arith, k))

is_due-eq-false_iff :
    (s : SessionStore) (now : ℕ) → (is_due s now ≡ false) ↔ (now ≤ s.last_timeout_update + second)
unfolding is_due
is_due-eq-false_iff s now = (λ k. ground (arith, k), λ k. ground (arith, k))

-- With a timeout of so many seconds, not negative and below 2 ^ 63 nanoseconds, a sweep keeps an
-- entry exactly if the last sweep was at most a second ago, or the session has been idle for less
-- than the timeout; it adds no entry.
pub mem-apply_session_timeouts_iff :
    (s : SessionStore) (now seconds : ℕ) (e : String × UserSession)
    → s.timeout_in_seconds ≡ pos seconds
    → seconds * second < 2 ^ 63
    → In e (apply_session_timeouts s now).auth_tokens ↔ (
        In e s.auth_tokens
        × ((now ≤ s.last_timeout_update + second) ⊎ (now < e.1.last_updated + seconds * second)))
mem-apply_session_timeouts_iff s now seconds e whole fits =
    let swept = mem-apply_session_timeouts s now e in
    let old =
      is_expired-eq-false_iff s.timeout_in_seconds seconds now e.1.last_updated whole fits in
    let due = is_due-eq-false_iff s now in
    (
      λ m. let (there, k) = swept.0 m in (there, either k due.0 old.0),
      λ h. swept.1 (h.0, either h.1 due.1 old.1),
    )
