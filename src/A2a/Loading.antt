-- ===== src/A2a/Loading.antt =====
-- Loading the state file; the disk's and the parser's answers are parameters.
use confidential_agent.Common.{
  String, Bool-cases, inl, inr, ◌==◌, nat_eq, ◌≡◌, refl, Result, ok, bind-eq-ok, ok_injective,
  seq-eq-ok_iff,
}
use confidential_agent.Common.Text.{byte_len}
use confidential_agent.A2a.{
  A2aStateFile, OnDisk, missing, unreadable, content, empty_state, from_path, validate_state,
}
use confidential_agent.A2a.Validity.{IsValidState, validate_state_iff}

empty_state-IsValidState : IsValidState empty_state
empty_state-IsValidState = record { version = refl; aliases = tt; urls = tt; peers = tt }

-- Whatever the disk and the parser answer, a state that `from_path` returns is valid.
pub from_path-IsValidState :
    (parse : String → Result A2aStateFile) (disk : OnDisk) (state : A2aStateFile)
    → from_path parse disk ≡ ok state
    → IsValidState state
unfolding from_path
from_path-IsValidState parse missing state h = rw (← ok_injective h) empty_state-IsValidState
from_path-IsValidState parse (unreadable e) state h = cc
from_path-IsValidState parse (content s) state h = elim (Bool-cases (byte_len s == 0)) [
  | inl blank ↦ rw (← ok_injective (rw blank at h)) empty_state-IsValidState
  | inr filled ↦
      let (read, _, h₁) = bind-eq-ok (parse s) _ (rw filled at h) in
      let (checked, same) = (seq-eq-ok_iff (validate_state read) (ok read)).0 h₁ in
      rw (← ok_injective same) ((validate_state_iff read).0 checked)
]
