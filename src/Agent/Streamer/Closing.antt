-- ===== src/Agent/Streamer/Closing.antt =====
-- When the closing of a stream succeeds.
use dkll.Base.{◌≡◌, ◌↔◌, ◌⊎◌, inl, inr, refl, true, none, Bool-cases, Option-cases}
use dkll.Agent.MultiWriter.{wrap}
use dkll.Agent.Streamer.{Streaming, Stream, close_err, close_log, close_stream}

module _ (env : Streaming) where
  open env use {World, same_writer, close_writer, wait}

  close_err-none :
      (l : Stream env) (w : World)
      → ((close_err env l w).1 ≡ none) ↔ (
          (same_writer l.log_writer l.err_writer ≡ true) ⊎ ((close_writer l.err_writer w).1 ≡ none))
  unfolding close_err wrap
  close_err-none l w = elim (Bool-cases (same_writer l.log_writer l.err_writer)) [
    | inl s ↦ rw s (λ _. inl refl, λ _. refl)
    | inr s ↦ elim (Option-cases (close_writer l.err_writer w).1) [
      | inl e ↦ rw (s, e) (λ _. inr refl, λ _. refl)
      | inr (x, e) ↦
          rw (s, e) (λ h. absurd cc, λ h. elim h [ inl a ↦ absurd cc | inr b ↦ absurd cc ])
    ]
  ]

  close_log-none :
      (l : Stream env) (w : World)
      → let log = close_writer l.log_writer w in
        ((close_log env l w).1 ≡ none) ↔ (
          (log.1 ≡ none)
          × ((same_writer l.log_writer l.err_writer ≡ true)
              ⊎ ((close_writer l.err_writer log.0).1 ≡ none)))
  unfolding close_log
  close_log-none l w = elim (Option-cases (close_writer l.log_writer w).1) [
    | inl e ↦
        let (to, from) = close_err-none l (close_writer l.log_writer w).0 in
        rw (e, close_log) (λ h. (refl, to h), λ h. from h.1)
    | inr (x, e) ↦ rw (e, close_log) (λ h. absurd cc, λ h. absurd (cc (h.0)))
  ]

  -- `Close` returns no error exactly if the stream ended in time, the writer of the log then closed
  -- without an error, and so did after it the writer of the errors, unless it is the same writer.
  pub close_stream-none :
      (l : Stream env) (w : World)
      → let ended = wait l.id w in
        let log = close_writer l.log_writer ended.0 in
        ((close_stream env l w).1 ≡ none) ↔ (
          (ended.1 ≡ none)
          × (log.1 ≡ none)
          × ((same_writer l.log_writer l.err_writer ≡ true)
              ⊎ ((close_writer l.err_writer log.0).1 ≡ none)))
  unfolding close_stream
  close_stream-none l w = elim (Option-cases (wait l.id w).1) [
    | inl e ↦
        let (to, from) = close_log-none l (wait l.id w).0 in
        rw (e, close_stream) (λ h. (refl, (to h).0, (to h).1), λ h. from (h.1, h.2))
    | inr (x, e) ↦ rw (e, close_stream) (λ h. absurd cc, λ h. absurd (cc (h.0)))
  ]
