-- ===== src/Tcp/States.antt =====
-- The codes of the TCP states.
use live_update.Base.{ℕ, ◌≡◌, arith, ◌↔◌}
use live_update.Machine.{ok}
use live_update.Tcp.{
  State, closed, listen, syn_sent, syn_received, established, fin_wait_1, fin_wait_2, close_wait,
  closing, last_ack, time_wait, other, to_state, of_state,
}

-- A TCP state is coded by a number exactly if the number decodes to it; a pointer to none of the states
-- has no code.
pub of_state_iff : (s : State) (n : ℕ) → (of_state s ≡ ok n) ↔ (to_state n ≡ ok s)
unfolding of_state to_state
of_state_iff closed n = (λ e. ground arith, λ e. ground arith)
of_state_iff listen n = (λ e. ground arith, λ e. ground arith)
of_state_iff syn_sent n = (λ e. ground arith, λ e. ground arith)
of_state_iff syn_received n = (λ e. ground arith, λ e. ground arith)
of_state_iff established n = (λ e. ground arith, λ e. ground arith)
of_state_iff fin_wait_1 n = (λ e. ground arith, λ e. ground arith)
of_state_iff fin_wait_2 n = (λ e. ground arith, λ e. ground arith)
of_state_iff close_wait n = (λ e. ground arith, λ e. ground arith)
of_state_iff closing n = (λ e. ground arith, λ e. ground arith)
of_state_iff last_ack n = (λ e. ground arith, λ e. ground arith)
of_state_iff time_wait n = (λ e. ground arith, λ e. ground arith)
of_state_iff other n = (λ e. ground arith, λ e. ground arith)
