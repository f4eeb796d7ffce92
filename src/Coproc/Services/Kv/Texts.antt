-- ===== src/Coproc/Services/Kv/Texts.antt =====
-- Only texts pass between the host and the key-value backend.
use wl_hosted_core.Prelude.{
  ◌≤◌, ◌≡◌, ◌≢◌, ◌⊎◌, inl, inr, refl, arith, true, List, ◌∷◌, length, length-take, take, ltb, ◌==◌,
  not, ◌||◌, if_cases, ℕ,
}
use wl_hosted_core.Coproc.Types.{Call, Platform, Coproc}
use wl_hosted_core.Coproc.Services.Utf8.{utf8_valid}
use wl_hosted_core.Protocol.Rpc.{is_status_ok}
use wl_hosted_core.Prelude.Word.{ℤ}
use wl_hosted_core.Coproc.Services.Kv.{
  kv_max_value_size, KvRequest, KvOutcome, kv_key, kv_found, kv_perform, kv_checked,
}

abbrev pub IsKey : List ℕ → Type 0
IsKey key = (length key ≢ 0) × (utf8_valid key ≡ true)

-- The texts of a call of the backend; no other call is one.
abbrev pub IsKvCall : Call → Type 0
IsKvCall (Call.kv_read key status) = IsKey key
IsKvCall (Call.kv_write key value status) = IsKey key × (utf8_valid value ≡ true)
IsKvCall (Call.kv_erase key status) = IsKey key
IsKvCall _ = ⊥

abbrev pub IsFound : KvOutcome → Type 0
IsFound (KvOutcome.found value) = (utf8_valid value ≡ true) × (length value ≤ kv_max_value_size)
IsFound (KvOutcome.ended status) = Unit

-- What is done with a request: at most one call, with texts only, and only a text is found.
abbrev pub KeepsTexts : Coproc → KvOutcome × Coproc → Type 0
KeepsTexts c out =
    ((out.1 ≡ c) ⊎ ((call : Call) × (out.1 ≡ record c { trace = call ∷ c.trace }) × IsKvCall call))
    × IsFound out.0

kv_found-IsFound :
    (p : Platform) (status : ℤ) (value : List ℕ) (value_size : ℕ)
    → IsFound (kv_found p status value value_size)
kv_found-IsFound p status value value_size =
    if_cases IsFound (not (is_status_ok status)) (λ _. tt)
      (λ _.
        if_cases IsFound
          (ltb kv_max_value_size value_size || not (utf8_valid (take value_size value))) (λ _. tt)
          (λ good. (ground arith, ground (arith, length-take value_size value))))

module _ (p : Platform) (c : Coproc) where
  kv_perform-KeepsTexts : (kv : KvRequest) → IsKey (kv_key kv) → KeepsTexts c (kv_perform p c kv)
  unfolding kv_perform
  kv_perform-KeepsTexts (KvRequest.read key) is_key =
      let answer = p.kv_read c.trace key in
      if_cases (KeepsTexts c) (not (c.config).has_kv_read) (λ _. (inl refl, tt))
        (λ _. (
          inr (Call.kv_read key answer.0, refl, is_key),
          kv_found-IsFound p answer.0 answer.1 answer.2,
        ))
  kv_perform-KeepsTexts (KvRequest.write key value) is_key =
      if_cases (KeepsTexts c) (not (utf8_valid value)) (λ _. (inl refl, tt))
        (λ good.
          if_cases (KeepsTexts c) (not (c.config).has_kv_write) (λ _. (inl refl, tt))
            (λ _. (
              inr (
                Call.kv_write key value (p.kv_write c.trace key value),
                refl,
                (is_key, ground arith),
              ),
              tt,
            )))
  kv_perform-KeepsTexts (KvRequest.erase key) is_key =
      if_cases (KeepsTexts c) (not (c.config).has_kv_erase) (λ _. (inl refl, tt))
        (λ _. (inr (Call.kv_erase key (p.kv_erase c.trace key), refl, is_key), tt))

  -- Whatever the host asks for and whatever the backend answers: the backend is called at most once,
  -- and with a key and a value that `utf8_valid` accepts and a key that is not empty; a value that is
  -- sent to the host is one that it accepts too, of at most 512 bytes.
  pub kv_checked-KeepsTexts : (kv : KvRequest) → KeepsTexts c (kv_checked p c kv)
  unfolding kv_checked
  kv_checked-KeepsTexts kv =
      if_cases (KeepsTexts c) (length (kv_key kv) == 0 || not (utf8_valid (kv_key kv)))
        (λ _. (inl refl, tt)) (λ good. kv_perform-KeepsTexts kv (ground arith, ground arith))
