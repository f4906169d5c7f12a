-- ===== src/Factory/Placement.antt =====
-- The series of programs/otoken_factory/src/lib.rs over any history: each stands at the address of
-- its terms, and never changes.
use options_protocol_solana.Common.{
  ℕ, ◌<◌, ◌≡◌, ap, sym, ◌∙◌, subst, inl, inr, Option, some, none, List, [], ◌∷◌, Pubkey, lookup,
  insert, lookup-insert_cases, lookup-insert_vacant, ok, >>=-eq-ok, Result-cases, arith,
}
use options_protocol_solana.Runtime.{Runtime, Seed, TokenProgram}
use options_protocol_solana.Factory.State.{
  FactoryState, FactoryConfig, FactoryOperatorConfig, OToken, factory_id, otoken_seeds, mint_seeds,
}
use options_protocol_solana.Factory.Series
use options_protocol_solana.Factory.Series.{CreateOtoken, Terms, create_otoken, load_create_otoken}
use options_protocol_solana.Factory.Machine
use options_protocol_solana.Factory.Machine.{Instruction, Transaction, execute, run}

-- The account and the mint of a series stand at the addresses of its terms.
pub record IsPlaced (find : List Seed → Pubkey → Pubkey × ℕ) (k : Pubkey) (o : OToken)
    : Type 0 where
  pub account :
      (find
        (otoken_seeds o.underlying o.strike_asset o.collateral o.strike_price o.expiry o.is_put)
        factory_id).0
      ≡ k
  pub mint :
      (find
        (mint_seeds o.underlying o.strike_asset o.collateral o.strike_price o.expiry o.is_put)
        factory_id).0
      ≡ o.mint
  pub strike : 0 < o.strike_price

-- A write leaves the series alone, or adds one at a vacant address.
data Write (find : List Seed → Pubkey → Pubkey × ℕ) : FactoryState → FactoryState → Type 0 where
  other : {s s' : FactoryState} → s'.otokens ≡ s.otokens → Write find s s'
  series :
      {s s' : FactoryState} (k : Pubkey) (o : OToken)
      → lookup k s.otokens ≡ none
      → IsPlaced find k o
      → s'.otokens ≡ insert k o s.otokens
      → Write find s s'

abbrev created : Terms → Pubkey → ℕ → OToken
created g mint bump = record {
  underlying = g.underlying;
  strike_asset = g.strike_asset;
  collateral = g.collateral;
  strike_price = g.strike_price;
  expiry = g.expiry;
  is_put = g.is_put;
  mint = mint;
  bump = bump;
}

-- Before the program is initialized it owns no account.
abbrev pub no_series : FactoryState
no_series = record { configs = []; operator_configs = []; otokens = [] }

nothing_there : (k : Pubkey) (o : OToken) → ¬ (lookup k no_series.otokens ≡ some o)
unfolding lookup
nothing_there k o e = cc

ok_inj : {s s' : FactoryState} → ok s ≡ ok s' → s ≡ s'
ok_inj e = cc

module _ {L : Type 0} (t : TokenProgram L) (initialize_mint : L → Pubkey → ℕ → Pubkey → Option L)
    (rt : Runtime) where
  module _ (s : FactoryState) (l : L) (a : CreateOtoken) (g : Terms) where
    load_create_otoken-IsPlaced :
        (c : FactoryConfig) (oc : FactoryOperatorConfig) (bump : ℕ) (l' : L)
        → load_create_otoken t initialize_mint rt s l a g ≡ ok (c, oc, bump, l')
        → 0 < g.strike_price
        → (lookup a.otoken s.otokens ≡ none)
          × IsPlaced rt.find_program_address a.otoken (created g a.otoken_mint bump)
    unfolding load_create_otoken
    load_create_otoken-IsPlaced c oc bump l' e h =
        (ground arith, record { account = ground arith; mint = ground arith; strike = h })

    create_otoken-Write :
        (s' : FactoryState) (l' : L)
        → create_otoken t initialize_mint rt s l a g ≡ ok (s', l')
        → Write rt.find_program_address s s'
    unfolding create_otoken
    create_otoken-Write s' l' e =
        let ((c, oc, bump, l''), loaded, rest) =
          >>=-eq-ok (load_create_otoken t initialize_mint rt s l a g) _ e in
        let (vacant, placed) = load_create_otoken-IsPlaced c oc bump l'' loaded (ground arith) in
        series a.otoken (created g a.otoken_mint bump) vacant placed (ground arith)

  execute-Write :
      (l : L) (s s' : FactoryState) (i : Instruction)
      → execute t initialize_mint rt l s i ≡ ok s'
      → Write rt.find_program_address s s'
  unfolding execute Series.initialize Series.set_controller Series.set_operator
  execute-Write l s s' (Machine.initialize a admin) e = other (ground arith)
  execute-Write l s s' (Machine.set_controller a controller) e = other (ground arith)
  execute-Write l s s' (Machine.set_operator a operator) e = other (ground arith)
  execute-Write l s s' (Machine.create_otoken a g) e =
      let ((s'', l'), creates, same) = >>=-eq-ok (create_otoken t initialize_mint rt s l a g) _ e in
      subst (λ r. Write rt.find_program_address s r) (ok_inj same)
        (create_otoken-Write s l a g s'' l' creates)

module _ {L : Type 0} (t : TokenProgram L) (initialize_mint : L → Pubkey → ℕ → Pubkey → Option L)
    (rt : Runtime) where
  -- What every write keeps, every history keeps.
  run_keeps :
      (P : FactoryState → Type 0)
      → ((s s' : FactoryState) → Write rt.find_program_address s s' → P s → P s')
      → (s : FactoryState) (xs : List (Transaction L)) → P s
      → P (run t initialize_mint rt s xs)
  unfolding run
  run_keeps P kept s [] h = h
  run_keeps P kept s (x ∷ xs) h =
      elim (Result-cases
        (execute t initialize_mint (Machine.at rt x.now) x.ledger s x.instruction)) [
          | inl (s', e) ↦
              subst (λ r. P (run t initialize_mint rt (Machine.outcome t initialize_mint s r) xs))
                (sym e)
                (run_keeps P kept s' xs (
                  kept s s'
                    (execute-Write t initialize_mint (Machine.at rt x.now) x.ledger s s'
                      x.instruction e)
                    h))
          | inr (f, e) ↦
              subst (λ r. P (run t initialize_mint rt (Machine.outcome t initialize_mint s r) xs))
                (sym e) (run_keeps P kept s xs h)
        ]

  -- Every series that exists after a history from the empty state stands, with its mint, at the
  -- addresses of its terms, and has a positive strike price.
  pub run-IsPlaced :
      (xs : List (Transaction L)) (k : Pubkey) (o : OToken)
      → lookup k (run t initialize_mint rt no_series xs).otokens ≡ some o
      → IsPlaced rt.find_program_address k o
  run-IsPlaced xs =
      run_keeps AllPlaced kept no_series xs (λ k o found. absurd (nothing_there k o found))
    where
      AllPlaced : FactoryState → Type 0
      AllPlaced s =
          (k : Pubkey) (o : OToken)
          → lookup k s.otokens ≡ some o
          → IsPlaced rt.find_program_address k o

      kept : (s s' : FactoryState) → Write rt.find_program_address s s' → AllPlaced s → AllPlaced s'
      kept s s' (other same) h k o found = h k o (sym (ap (lookup k) same) ∙ found)
      kept s s' (series j u vacant placed written) h k o found =
          elim (lookup-insert_cases k j u o s.otokens (sym (ap (lookup k) written) ∙ found)) [
            | inl (at_j, same) ↦
                subst (λ i. IsPlaced rt.find_program_address i o) (sym at_j)
                  (subst (IsPlaced rt.find_program_address j) (sym same) placed)
            | inr (_, old) ↦ h k o old
          ]

  -- A series that exists at some time is the same at every later time.
  pub run-otoken :
      (s : FactoryState) (xs : List (Transaction L)) (k : Pubkey) (o : OToken)
      → lookup k s.otokens ≡ some o
      → lookup k (run t initialize_mint rt s xs).otokens ≡ some o
  run-otoken s xs k o here = run_keeps (λ f. lookup k f.otokens ≡ some o) kept s xs here
    where
      kept :
          (s s' : FactoryState)
          → Write rt.find_program_address s s'
          → lookup k s.otokens ≡ some o
          → lookup k s'.otokens ≡ some o
      kept s s' (other same) h = ap (lookup k) same ∙ h
      kept s s' (series j u vacant placed written) h =
          ap (lookup k) written ∙ lookup-insert_vacant k j u o s.otokens vacant h
