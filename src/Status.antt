-- ===== src/Status.antt =====
-- The status codes of libiam/lualib-src/iam_core/common/common.h.
use account.Base.{ℕ, Bool, true, false, Option, none, some, ◌≡◌, refl, ◌↔◌}

-- RET_OK, RET_ERR, USER_LOGIN_LIMITED, and any other code that a failing call hands on.
pub data Ret : Type 0 where
  ok err limited : Ret
  code : ℕ → Ret

-- ret == RET_OK. A code that is handed on is an errno or a nonzero result.
abbrev pub is_ok : Ret → Bool
is_ok Ret.ok = true
is_ok _ = false

-- A step that returns RET_ERR when it has no result.
infixl 5 ◌>>=◌
abbrev pub ◌>>=◌ {ℓ} : {A : Type ℓ} → Option A → (A → Ret) → Ret
none >>= f = err
some a >>= f = f a

-- A chain of such steps succeeds only if each of them does.
pub >>=-eq-ok {ℓ} :
    {A : Type ℓ} (m : Option A) (f : A → Ret) → (m >>= f) ≡ ok → (a : A) × (m ≡ some a) × (f a ≡ ok)
>>=-eq-ok none f h = cc
>>=-eq-ok (some a) f h = (a, refl, h)

pub is_ok_iff : (r : Ret) → (is_ok r ≡ true) ↔ (r ≡ ok)
is_ok_iff ok = (λ _. refl, λ _. refl)
is_ok_iff err = ((λ h. cc), (λ h. cc))
is_ok_iff limited = ((λ h. cc), (λ h. cc))
is_ok_iff (code c) = ((λ h. cc), (λ h. cc))
