-- ===== src/Coproc/Services/Tests.antt =====
-- The theorems of the key-value service and of UTF-8 at concrete texts.
use wl_hosted_core.Prelude.{ℕ, ◌≡◌, ◌↔◌, arith, true, List, [], ◌∷◌, All}
use wl_hosted_core.Coproc.Samples.{sample_platform, sample_coproc}
use wl_hosted_core.Coproc.Services.Utf8.{utf8_valid}
use wl_hosted_core.Coproc.Services.Utf8.Encode.{IsScalar, encode_text}
use wl_hosted_core.Coproc.Services.Utf8.Accepts.{utf8_valid_iff}
use wl_hosted_core.Coproc.Services.Kv.{KvRequest, kv_checked}
use wl_hosted_core.Coproc.Services.Kv.Texts.{KeepsTexts, kv_checked-KeepsTexts}

-- A and an accented e.
abbrev two_letters : List ℕ
two_letters = 65 ∷ 0xc3 ∷ 0xa9 ∷ []

utf8_valid_iff_example :
    (utf8_valid two_letters ≡ true)
    ↔ ((cs : List ℕ) × All IsScalar cs × (two_letters ≡ encode_text cs))
utf8_valid_iff_example = utf8_valid_iff two_letters (omega arith, (omega arith, (omega arith, _)))

kv_checked-KeepsTexts_example :
    KeepsTexts sample_coproc (kv_checked sample_platform sample_coproc (KvRequest.read two_letters))
kv_checked-KeepsTexts_example =
    kv_checked-KeepsTexts sample_platform sample_coproc (KvRequest.read two_letters)
