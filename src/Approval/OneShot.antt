-- ===== src/Approval/OneShot.antt =====
-- The store of crates/opticcode-policy/src/approval.rs never honours a grant twice.
use optic_code.Approval.{
  ApprovalGrant, ApprovalStore, Codec, ConsumeCalls, NativeConfirmation, claim_name, claim_record,
  claimed, consume_at, consuming_name, issue_at, json_name, settle, take_record,
  validate_storage_id, write_file_at,
}
use optic_code.Approval.Binding.{ApprovalBinding, ApprovalError, invalid_record, missing, reused}
use optic_code.Prelude.{
  Bool, Option-cases, Result, [], ap, arith, err, inl, inr, is_ok, is_some, ok, refl, sym, true, ℕ,
  ◌++◌, ◌∙◌, ◌∷◌, ◌≡◌, ◌≢◌,
}
use optic_code.Text.{Text, bytes}

last : Text → ℕ
last [] = 0
last (c ∷ []) = c
last (_ ∷ c ∷ s) = last (c ∷ s)

last-append : (s : Text) (c : ℕ) (t : Text) → last (s ++ c ∷ t) ≡ last (c ∷ t)
unfolding last
last-append [] c t = refl
last-append (d ∷ []) c t = refl
last-append (d ∷ e ∷ s) c t = last-append (e ∷ s) c t

-- A claim file is none of the `.json` files.
claim-ne-json : (a b : Text) → claim_name a ≢ json_name b
unfolding bytes last
claim-ne-json a b e =
    let h =
      sym (last-append a 46 (99 ∷ 108 ∷ 97 ∷ 105 ∷ 109 ∷ []))
      ∙ ap last e
      ∙ last-append b 46 (106 ∷ 115 ∷ 111 ∷ 110 ∷ []) in
    ground arith

claim-ne-consuming : (a b : Text) → claim_name a ≢ consuming_name b
unfolding bytes last
claim-ne-consuming a b e =
    let h =
      sym (last-append a 46 (99 ∷ 108 ∷ 97 ∷ 105 ∷ 109 ∷ []))
      ∙ ap last e
      ∙ last-append b 45
          (99 ∷ 111 ∷ 110 ∷ 115 ∷ 117 ∷ 109 ∷ 105 ∷ 110 ∷ 103 ∷ 46 ∷ 106 ∷ 115 ∷ 111 ∷ 110 ∷ []) in
    ground arith

-- The claim of `k` is there.
abbrev pub IsClaimed : ApprovalStore → Text → Type 0
IsClaimed store k = is_some (store.used_dir (claim_name k)) ≡ true

module _ (codec : Codec) where
  -- No later operation of the store removes a claim.
  claim_record-keeps :
      (calls : ConsumeCalls) (id : Text) (observed : ApprovalBinding) (now : ℕ)
      (store : ApprovalStore) (content : Text) (k : Text)
      → IsClaimed store k
      → IsClaimed (claim_record codec calls id observed now store content).1 k
  unfolding claim_record take_record settle write_file_at
  claim_record-keeps calls id observed now store content k h =
      ground (arith, claim-ne-json k id, claim-ne-consuming k id)

  consume_at-keeps :
      (calls : ConsumeCalls) (store : ApprovalStore) (id : Text) (observed : ApprovalBinding)
      (now : ℕ) (k : Text)
      → IsClaimed store k
      → IsClaimed (consume_at codec calls store id observed now).1 k
  unfolding consume_at
  consume_at-keeps calls store id observed now k h =
      elim (Option-cases (store.active_dir (json_name id))) [
        | inr e ↦ ground arith
        | inl (content, e) ↦
            ground (arith, claim_record-keeps calls id observed now store content k h)
      ]

  issue_at-keeps :
      (store : ApprovalStore) (id : Text) (created : Bool) (binding : ApprovalBinding)
      (confirmation : NativeConfirmation) (ttl now : ℕ) (k : Text)
      → IsClaimed store k
      → IsClaimed (issue_at codec store id created binding confirmation ttl now).1 k
  unfolding issue_at
  issue_at-keeps store id created binding confirmation ttl now k h = ground arith

-- The outcomes that spend a grant: it was accepted, or refused for what it was compared with.
abbrev pub IsSpent : Result ApprovalError ApprovalGrant → Type 0
IsSpent (ok _) = Unit
IsSpent (err missing) = ⊥
IsSpent (err reused) = ⊥
IsSpent (err invalid_record) = ⊥
IsSpent (err _) = Unit

module _ (codec : Codec) where
  take_record-keeps :
      (calls : ConsumeCalls) (id : Text) (observed : ApprovalBinding) (now : ℕ)
      (store : ApprovalStore) (content : Text) (k : Text)
      → IsClaimed store k
      → IsClaimed (take_record codec calls id observed now store content).1 k
  unfolding take_record settle write_file_at
  take_record-keeps calls id observed now store content k h =
      ground (arith, claim-ne-json k id, claim-ne-consuming k id)

  claimed-IsClaimed : (store : ApprovalStore) (id : Text) → IsClaimed (claimed store id) id
  unfolding write_file_at
  claimed-IsClaimed store id = ground arith

  claim_record-IsClaimed :
      (calls : ConsumeCalls) (id : Text) (observed : ApprovalBinding) (now : ℕ)
      (store : ApprovalStore) (content : Text)
      → IsSpent (claim_record codec calls id observed now store content).0
      → IsClaimed (claim_record codec calls id observed now store content).1 id
  unfolding claim_record
  claim_record-IsClaimed calls id observed now store content h = ground (
    arith,
    claimed-IsClaimed store id,
    take_record-keeps calls id observed now (claimed store id) content id,
  )

  consume_at-IsClaimed :
      (calls : ConsumeCalls) (store : ApprovalStore) (id : Text) (observed : ApprovalBinding)
      (now : ℕ)
      → IsSpent (consume_at codec calls store id observed now).0
      → IsClaimed (consume_at codec calls store id observed now).1 id
        × (is_ok (validate_storage_id id) ≡ true)
  unfolding consume_at
  consume_at-IsClaimed calls store id observed now h =
      elim (Option-cases (store.active_dir (json_name id))) [
        | inr e ↦ (ground arith, ground arith)
        | inl (content, e) ↦ (
          ground (arith, claim_record-IsClaimed calls id observed now store content),
          ground arith,
        )
      ]

  -- What can happen to a store: a grant is issued, or one is presented, with any answers of the system.
  pub data StoreStep : ApprovalStore → ApprovalStore → Type 0 where
    issued :
        (s : ApprovalStore) (id : Text) (created : Bool) (binding : ApprovalBinding)
        (confirmation : NativeConfirmation) (ttl now : ℕ)
        → StoreStep s (issue_at codec s id created binding confirmation ttl now).1
    presented :
        (s : ApprovalStore) (calls : ConsumeCalls) (id : Text) (observed : ApprovalBinding)
        (now : ℕ)
        → StoreStep s (consume_at codec calls s id observed now).1

  pub data StoreReach (s : ApprovalStore) : ApprovalStore → Type 0 where
    here : StoreReach s s
    later : {t u : ApprovalStore} → StoreReach s t → StoreStep t u → StoreReach s u

  StoreStep-IsClaimed :
      (k : Text) {s t : ApprovalStore} → StoreStep s t → IsClaimed s k → IsClaimed t k
  StoreStep-IsClaimed k (issued s id created binding confirmation ttl now) h =
      issue_at-keeps codec s id created binding confirmation ttl now k h
  StoreStep-IsClaimed k (presented s calls id observed now) h =
      consume_at-keeps codec calls s id observed now k h

  StoreReach-IsClaimed :
      (k : Text) {s t : ApprovalStore} → StoreReach s t → IsClaimed s k → IsClaimed t k
  StoreReach-IsClaimed k here h = h
  StoreReach-IsClaimed k (later r step) h = StoreStep-IsClaimed k step (StoreReach-IsClaimed k r h)

  claimed_is_reused :
      (calls : ConsumeCalls) (store : ApprovalStore) (id : Text) (observed : ApprovalBinding)
      (now : ℕ)
      → IsClaimed store id
      → is_ok (validate_storage_id id) ≡ true
      → (consume_at codec calls store id observed now).0 ≡ err reused
  unfolding consume_at
  claimed_is_reused calls store id observed now h v = ground arith

  -- A grant is spent by its first comparison. Once a presentation was accepted, or refused for expiry
  -- or for drift, then after any further issues and presentations in the store every presentation of
  -- the same grant is answered "already consumed".
  pub consume_at-one_shot :
      (calls : ConsumeCalls) (store : ApprovalStore) (id : Text) (observed : ApprovalBinding)
      (now : ℕ) (t : ApprovalStore) (calls' : ConsumeCalls) (observed' : ApprovalBinding) (now' : ℕ)
      → IsSpent (consume_at codec calls store id observed now).0
      → StoreReach (consume_at codec calls store id observed now).1 t
      → (consume_at codec calls' t id observed' now').0 ≡ err reused
  consume_at-one_shot calls store id observed now t calls' observed' now' h r =
      let (claim, valid) = consume_at-IsClaimed calls store id observed now h in
      claimed_is_reused calls' t id observed' now' (StoreReach-IsClaimed id r claim) valid
