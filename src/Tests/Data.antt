-- ===== src/Tests/Data.antt =====
-- Concrete parameters: addresses, a digest, a machine.
use mathlib.Core.Path.{subst}
use mathlib.Core.Option.{some-injective}
use account.Base.{
  ℕ, ◌<◌, ◌≡◌, Option, none, some, List, [], ◌∷◌, if◌then◌else◌, arith, Bytes, length, All,
  Bool-cases, inl, inr,
}
use account.Clib.Text.{codes, str_eq}
use account.Network.{Inet}
use account.LoginRule.Address.{Host}
use account.LoginRule.Time.{Tm}
use account.LoginRule.Check.{Machine}

abbrev pub among : List (Bytes × Bytes) → Bytes → Option Bytes
among [] s = none
among ((text, octets) ∷ known) s =
    let later = among known s in if str_eq s text then some octets else later

-- Every address has `n` octets.
abbrev pub Octets : ℕ → Bytes → Type 0
Octets n a = (length a ≡ n) × All (λ o. o < 256) a

pub among-Octets :
    (n : ℕ) (known : List (Bytes × Bytes)) (s a : Bytes)
    → All (λ e. Octets n e.1) known
    → among known s ≡ some a
    → Octets n a
among-Octets n [] s a h e = absurd cc
among-Octets n ((text, octets) ∷ known) s a h e =
    let later = among-Octets n known s a h.1 in
    elim (Bool-cases (str_eq s text)) [
      | inl t ↦ let same : octets ≡ a = some-injective _ _ (rw t at e) in subst (Octets n) same h.0
      | inr f ↦ later (rw f at e)
    ]

abbrev pub known4 : List (Bytes × Bytes)
known4 =
    (codes "10.0.0.7", 10 ∷ 0 ∷ 0 ∷ 7 ∷ [])
    ∷ (codes "10.0.0.0", 10 ∷ 0 ∷ 0 ∷ 0 ∷ [])
    ∷ (codes "127.0.0.1", 127 ∷ 0 ∷ 0 ∷ 1 ∷ [])
    ∷ []

abbrev pub known6 : List (Bytes × Bytes)
known6 =
    (codes "fd00::1", 253 ∷ 0 ∷ 0 ∷ 0 ∷ 0 ∷ 0 ∷ 0 ∷ 0 ∷ 0 ∷ 0 ∷ 0 ∷ 0 ∷ 0 ∷ 0 ∷ 0 ∷ 1 ∷ [])
    ∷ (codes "fd00::", 253 ∷ 0 ∷ 0 ∷ 0 ∷ 0 ∷ 0 ∷ 0 ∷ 0 ∷ 0 ∷ 0 ∷ 0 ∷ 0 ∷ 0 ∷ 0 ∷ 0 ∷ 0 ∷ [])
    ∷ (codes "::1", 0 ∷ 0 ∷ 0 ∷ 0 ∷ 0 ∷ 0 ∷ 0 ∷ 0 ∷ 0 ∷ 0 ∷ 0 ∷ 0 ∷ 0 ∷ 0 ∷ 0 ∷ 1 ∷ [])
    ∷ []

pub octets4 : All (λ e. Octets 4 e.1) known4
octets4 = ground arith

pub octets6 : All (λ e. Octets 16 e.1) known6
octets6 = ground arith

abbrev pub net : Inet
net = record {
  pton4 = among known4;
  pton6 = among known6;
  pton4_octets = (λ s a e. among-Octets 4 known4 s a octets4 e);
  pton6_octets = (λ s a e. among-Octets 16 known6 s a octets6 e);
}

abbrev pub host : Host
host = record {
  interfaces = some (codes "lo" ∷ codes "eth2" ∷ []);
  inet_aton = among known4;
  arp = (λ device a. some (1 ∷ 2 ∷ 171 ∷ 4 ∷ 5 ∷ 6 ∷ []));
}

-- 2026-11-26 18:30
abbrev pub now : Tm
now = record { tm_year = 126; tm_mon = 10; tm_mday = 26; tm_hour = 18; tm_min = 30 }

abbrev pub machine : Machine
machine = record { net = net; host = host; clock = some now }
