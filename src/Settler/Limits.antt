-- ===== src/Settler/Limits.antt =====
-- The limits of the configuration of programs/batch_settler/src/lib.rs, over any history of the
-- instructions that write it.
use options_protocol_solana.Common.{
  ℕ, ℤ, Bool, ◌≤◌, ◌≤ℤ◌, ◌≡◌, ap, sym, ◌∙◌, subst, inl, inr, some, List, [], ◌∷◌, Pubkey, lookup,
  insert, lookup-insert_cases, Result, ok, err, >>=-eq-ok, Result-cases, arith,
}
use options_protocol_solana.Runtime.{Runtime, init_at}
use options_protocol_solana.Settler.State.{
  SettlerState, SettlerConfig, max_fee_bps, min_escape_delay, config_seeds, settler_id,
}
use options_protocol_solana.Settler.Admin
use options_protocol_solana.Settler.Admin.{
  Initialize, InitialConfig, OwnerAction, fresh_config, load_owner_action,
}

pub data Instruction : Type 0 where
  initialize : Initialize → InitialConfig → Instruction
  set_treasury : OwnerAction → Pubkey → Instruction
  set_protocol_fee : OwnerAction → ℕ → Instruction
  set_operator : OwnerAction → Pubkey → Instruction
  pause : OwnerAction → Bool → Instruction
  set_escape_delay : OwnerAction → ℤ → Instruction
  set_jupiter_program : OwnerAction → Pubkey → Instruction

unfoldable pub execute : Runtime → SettlerState → Instruction → Result SettlerState
execute rt s (initialize a given) = Admin.initialize rt s a given
execute rt s (set_treasury a treasury) = Admin.set_treasury rt s a treasury
execute rt s (set_protocol_fee a bps) = Admin.set_protocol_fee rt s a bps
execute rt s (set_operator a operator) = Admin.set_operator rt s a operator
execute rt s (pause a paused) = Admin.pause rt s a paused
execute rt s (set_escape_delay a delay) = Admin.set_escape_delay rt s a delay
execute rt s (set_jupiter_program a program) = Admin.set_jupiter_program rt s a program

-- The state after an instruction that had this outcome.
abbrev outcome : SettlerState → Result SettlerState → SettlerState
outcome s (ok s') = s'
outcome s (err _) = s

unfoldable pub run : Runtime → SettlerState → List Instruction → SettlerState
unfolding execute
run rt s [] = s
run rt s (i ∷ is) = run rt (outcome s (execute rt s i)) is

pub record IsLimited (c : SettlerConfig) : Type 0 where
  pub fee : c.protocol_fee_bps ≤ max_fee_bps
  pub delay : min_escape_delay ≤ℤ c.escape_delay

abbrev pub AllLimited : SettlerState → Type 0
AllLimited s = (k : Pubkey) (c : SettlerConfig) → lookup k s.configs ≡ some c → IsLimited c

module _ (rt : Runtime) (s s' : SettlerState) where
  insert-AllLimited :
      (k : Pubkey) (c : SettlerConfig)
      → s'.configs ≡ insert k c s.configs
      → IsLimited c
      → AllLimited s
      → AllLimited s'
  insert-AllLimited k c written new h j d found =
      elim (lookup-insert_cases j k c d s.configs (sym (ap (lookup j) written) ∙ found)) [
        | inl (_, same) ↦ subst IsLimited (sym same) new
        | inr (_, old) ↦ h j d old
      ]

  load_owner_action-lookup :
      (a : OwnerAction) (c : SettlerConfig)
      → load_owner_action rt s a ≡ ok c
      → lookup a.settler_config s.configs ≡ some c
  unfolding load_owner_action
  load_owner_action-lookup a c e = ground arith

  load_owner_action-IsLimited :
      (a : OwnerAction) (c : SettlerConfig)
      → load_owner_action rt s a ≡ ok c
      → AllLimited s
      → IsLimited c
  load_owner_action-IsLimited a c e h = h a.settler_config c (load_owner_action-lookup a c e)

  execute-AllLimited : (i : Instruction) → execute rt s i ≡ ok s' → AllLimited s → AllLimited s'
  unfolding execute Admin.initialize Admin.set_treasury Admin.set_protocol_fee Admin.set_operator
      Admin.pause Admin.set_escape_delay Admin.set_jupiter_program
  execute-AllLimited (initialize a given) e h =
      let (bump, _, rest) =
        >>=-eq-ok (init_at rt s.configs config_seeds settler_id a.settler_config) _ e in
      insert-AllLimited a.settler_config (fresh_config a.payer given bump) (ground arith)
        (record { fee = ground arith; delay = ground arith }) h
  execute-AllLimited (set_treasury a treasury) e h =
      let (c, loaded, rest) = >>=-eq-ok (load_owner_action rt s a) _ e in
      let old = load_owner_action-IsLimited a c loaded h in
      insert-AllLimited a.settler_config (record c { treasury = treasury }) (ground arith)
        (record { fee = old.fee; delay = old.delay }) h
  execute-AllLimited (set_protocol_fee a bps) e h =
      let (c, loaded, rest) = >>=-eq-ok (load_owner_action rt s a) _ e in
      let old = load_owner_action-IsLimited a c loaded h in
      insert-AllLimited a.settler_config (record c { protocol_fee_bps = bps }) (ground arith)
        (record { fee = ground arith; delay = old.delay }) h
  execute-AllLimited (set_operator a operator) e h =
      let (c, loaded, rest) = >>=-eq-ok (load_owner_action rt s a) _ e in
      let old = load_owner_action-IsLimited a c loaded h in
      insert-AllLimited a.settler_config (record c { operator = operator }) (ground arith)
        (record { fee = old.fee; delay = old.delay }) h
  execute-AllLimited (pause a paused) e h =
      let (c, loaded, rest) = >>=-eq-ok (load_owner_action rt s a) _ e in
      let old = load_owner_action-IsLimited a c loaded h in
      insert-AllLimited a.settler_config (record c { paused = paused }) (ground arith)
        (record { fee = old.fee; delay = old.delay }) h
  execute-AllLimited (set_escape_delay a delay) e h =
      let (c, loaded, rest) = >>=-eq-ok (load_owner_action rt s a) _ e in
      let old = load_owner_action-IsLimited a c loaded h in
      insert-AllLimited a.settler_config (record c { escape_delay = delay }) (ground arith)
        (record { fee = old.fee; delay = ground arith }) h
  execute-AllLimited (set_jupiter_program a program) e h =
      let (c, loaded, rest) = >>=-eq-ok (load_owner_action rt s a) _ e in
      let old = load_owner_action-IsLimited a c loaded h in
      insert-AllLimited a.settler_config (record c { jupiter_program = program }) (ground arith)
        (record { fee = old.fee; delay = old.delay }) h

-- If every configuration has a fee rate of at most 20% and an escape delay of at least three days,
-- then so it is after any history of the instructions that write the configuration.
pub run-AllLimited :
    (rt : Runtime) (s : SettlerState) (is : List Instruction)
    → AllLimited s
    → AllLimited (run rt s is)
unfolding run
run-AllLimited rt s [] h = h
run-AllLimited rt s (i ∷ is) h = elim (Result-cases (execute rt s i)) [
  | inl (s', e) ↦
      subst (λ r. AllLimited (run rt (outcome s r) is)) (sym e)
        (run-AllLimited rt s' is (execute-AllLimited rt s s' i e h))
  | inr (f, e) ↦
      subst (λ r. AllLimited (run rt (outcome s r) is)) (sym e) (run-AllLimited rt s is h)
]
