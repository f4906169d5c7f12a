-- ===== src/Controller/Series/Frozen.antt =====
-- The terms of a series of programs/controller/src/lib.rs are fixed once it is listed, and its expiry
-- price once it is set.
use options_protocol_solana.Common.{
  ℕ, ◌≡◌, refl, ap, sym, ◌∙◌, ◌⊎◌, inl, inr, some, Pubkey, lookup, insert, List, lookup-insert,
  lookup-insert_vacant, Bool-cases, ◌==◌, ==_iff, some_inj,
}
use options_protocol_solana.Runtime.{Runtime, TokenProgram}
use options_protocol_solana.Controller.State.{ControllerState, OTokenInfo}
use options_protocol_solana.Controller.Moves.{
  Move, keep, open_vault, deposit, mint, settle, list_series, fix_price,
}
use options_protocol_solana.Controller.Machine.{Transaction, run}
use options_protocol_solana.Controller.Machine.History.{run_keeps}

-- The series stands at its address with its terms, and with its expiry price if it had one.
abbrev pub Keeps : Pubkey → OTokenInfo → ControllerState → Type 0
Keeps k info s =
    (price : ℕ) × (lookup k s.infos ≡ some (record info { expiry_price = price }))
    × ((info.expiry_price ≡ 0) ⊎ (price ≡ info.expiry_price))

fix_price-Keeps :
    (k j : Pubkey) (info other : OTokenInfo) (p : ℕ) (s s' : ControllerState)
    → lookup j s.infos ≡ some other
    → other.expiry_price ≡ 0
    → s'.infos ≡ insert j (record other { expiry_price = p }) s.infos
    → Keeps k info s
    → Keeps k info s'
fix_price-Keeps k j info other p s s' found unset ei (price, here, set) =
    let priced : OTokenInfo = record other { expiry_price = p } in
    let written = ap (lookup k) ei ∙ lookup-insert k j priced s.infos in
    elim (Bool-cases (k == j)) [
      | inl same ↦
          let met : other ≡ record info { expiry_price = price } =
            some_inj (sym found ∙ ap (λ i. lookup i s.infos) (sym ((==_iff k j).0 same)) ∙ here) in
          (
            p,
            written ∙ rw same (ap (λ (i : OTokenInfo). some (record i { expiry_price = p })) met),
            unpriced met set,
          )
      | inr differ ↦ (price, written ∙ rw differ here, set)
    ]
  where
    unpriced :
        other ≡ record info { expiry_price = price }
        → (info.expiry_price ≡ 0) ⊎ (price ≡ info.expiry_price)
        → (info.expiry_price ≡ 0) ⊎ (p ≡ info.expiry_price)
    unpriced met (inl zero_price) = inl zero_price
    unpriced met (inr same_price) =
        inl (sym same_price ∙ sym (ap (λ i. i.expiry_price) met) ∙ unset)

Move-Keeps :
    (rt : Runtime) (k : Pubkey) (info : OTokenInfo) (s s' : ControllerState)
    → Move rt s s'
    → Keeps k info s
    → Keeps k info s'
Move-Keeps rt k info s s' (keep ev ei) (p, here, set) = (p, ap (lookup k) ei ∙ here, set)
Move-Keeps rt k info s s' (open_vault j u vacant c e o ev ei) (p, here, set) =
    (p, ap (lookup k) ei ∙ here, set)
Move-Keeps rt k info s s' (deposit j u n found o lt ev ei) (p, here, set) =
    (p, ap (lookup k) ei ∙ here, set)
Move-Keeps rt k info s s' (mint j u i n r found o bound listed same lt priced covered ev ei)
      (p, here, set) =
    (p, ap (lookup k) ei ∙ here, set)
Move-Keeps rt k info s s' (settle j u found o ev ei) (p, here, set) =
    (p, ap (lookup k) ei ∙ here, set)
Move-Keeps rt k info s s' (list_series j i vacant q d e ev ei) (p, here, set) =
    (p, ap (lookup k) ei ∙ lookup-insert_vacant k j i _ s.infos vacant here, set)
Move-Keeps rt k info s s' (fix_price j i q found e pos ev ei) h =
    fix_price-Keeps k j info i q s s' found e ei h

-- At every later time a listed series has the same terms, and the same expiry price if it had one.
pub run-Keeps :
    {L : Type 0} (t : TokenProgram L) (rt : Runtime) (s : ControllerState)
    (xs : List (Transaction L)) (k : Pubkey) (info : OTokenInfo)
    → lookup k s.infos ≡ some info
    → Keeps k info (run t rt s xs)
run-Keeps t rt s xs k info here =
    run_keeps t rt (Keeps k info)
      (λ now s s' m h. Move-Keeps (record rt { now = now }) k info s s' m h) s xs
      (info.expiry_price, here, inr refl)
