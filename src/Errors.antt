-- ===== src/Errors.antt =====
-- Errors as values, and what the program uses of the package `go-multierror`.
use dkll.Base.{Bool, true, false, ◌⊎◌, inl, inr, Option, none, some, Bytes, ◌≡◌, ◌≢◌, ◌↔◌, refl}

-- An error, by its text.
abbrev pub Error : Type 0
Error = Bytes

abbrev pub is_nil : Option Error → Bool
is_nil none = true
is_nil (some e) = false

-- A call that may fail gave a value.
abbrev pub is_open {ℓ} : {A : Type ℓ} → A ⊎ Error → Bool
is_open (inl a) = true
is_open (inr e) = false

-- The package `go-multierror`: `Append` and `ErrorOrNil`. An error that is appended is not nil.
pub record MultiError : Type 1 where
  pub Errors : Type 0
  pub empty : Errors
  pub append : Errors → Option Error → Errors
  pub error_or_nil : Errors → Option Error

-- What its documentation says: nil errors are skipped, and the result is nil if there is no error.
pub record IsMultiError (m : MultiError) : Type 0 where
  pub skips : (es : m.Errors) → m.append es none ≡ es
  pub nil_of_empty : m.error_or_nil m.empty ≡ none
  pub error_of_append : (es : m.Errors) (e : Error) → m.error_or_nil (m.append es (some e)) ≢ none
  pub error_stays :
      (es : m.Errors) (e : Option Error)
      → m.error_or_nil es ≢ none
      → m.error_or_nil (m.append es e) ≢ none

-- Two errors that are collected are nil together exactly if each is nil.
module _ (m : MultiError) (laws : IsMultiError m) where
  pub collected_none :
      (a b : Option Error)
      → (m.error_or_nil (m.append (m.append m.empty a) b) ≡ none) ↔ ((a ≡ none) × (b ≡ none))
  collected_none none none = (λ _. (refl, refl), λ _. rw (laws.skips, laws.skips) laws.nil_of_empty)
  collected_none (some e) b = (
    λ h. absurd (laws.error_stays _ b (laws.error_of_append m.empty e) h),
    λ h. absurd (cc (h.0)),
  )
  collected_none none (some e) = (λ h. absurd (laws.error_of_append _ e h), λ h. absurd (cc (h.1)))
