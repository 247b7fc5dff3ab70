-- ===== src/Relay/Loop.antt =====
-- The loop of `copyFramedToLocal` ends: its fuel is enough, and it obeys the equation of the code.
use spind.Prelude.{
  Bytes, Option, Result, [], ap, arith, err, length, ok, refl, suc, sym, zero, ℕ, ◌∙◌, ◌∷◌, ◌≡◌,
  ◌≤◌,
}
use mathlib.Core.Path.{fun_ext}
use spind.Relay.Frame.{ReadError, Frame, read_frame, read_frame-nil, read_frame_left}
use spind.Relay.Writer.{RelayError}
use spind.Relay.Pump.{Conn, deliver, round, copy_loop, copy_framed_to_local}

module _ (c : Conn) where
  open c use {W}

  round_any :
      (next other : Bytes → W → Option RelayError × W) (r : Result ReadError (Frame × Bytes))
      → ((frame : Frame) (left : Bytes) → r ≡ ok (frame, left) → next left ≡ other left)
      → (v : W) → round c next r v ≡ round c other r v
  unfolding round
  round_any next other (err e) h v = refl
  round_any next other (ok (frame, left)) h v = ap (λ n. deliver c frame n v) (h frame left refl)

  copy_loop-nil : (fuel : ℕ) → copy_loop c fuel [] ≡ copy_loop c 0 []
  unfolding copy_loop round
  copy_loop-nil zero = refl
  copy_loop-nil (suc fuel) = fun_ext λ v. rw read_frame-nil

  copy_loop_any :
      (f g : ℕ) (s : Bytes) → length s ≤ f → length s ≤ g → copy_loop c f s ≡ copy_loop c g s
  unfolding copy_loop
  copy_loop_any f g [] h k = copy_loop-nil f ∙ sym (copy_loop-nil g)
  copy_loop_any zero g (x ∷ s) h k = absurd (omega arith)
  copy_loop_any (suc f) zero (x ∷ s) h k = absurd (omega arith)
  copy_loop_any (suc f) (suc g) (x ∷ s) h k = fun_ext (
      round_any (copy_loop c f) (copy_loop c g) (read_frame (x ∷ s)) λ frame left e.
        let short = read_frame_left (x ∷ s) e in copy_loop_any f g left (omega arith) (omega arith))

  -- The model of the loop does what the loop does, round by round, and never runs out of fuel.
  pub copy_framed_to_local_step :
      (s : Bytes) (v : W)
      → copy_framed_to_local c s v ≡ round c (copy_framed_to_local c) (read_frame s) v
  unfolding copy_framed_to_local copy_loop round
  copy_framed_to_local_step [] v = rw read_frame-nil
  copy_framed_to_local_step (x ∷ s) v =
      round_any (copy_loop c (length s)) (λ left. copy_loop c (length left) left)
        (read_frame (x ∷ s))
        (λ frame left e.
          let short = read_frame_left (x ∷ s) e in
          copy_loop_any (length s) (length left) left (omega arith) (omega arith))
        v
