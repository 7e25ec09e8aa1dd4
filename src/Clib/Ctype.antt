-- ===== src/Clib/Ctype.antt =====
-- <ctype.h> in the "C" locale.
use account.Base.{ℕ, ◌+◌, Bool, ◌&&◌, ◌||◌, leb, ◌==◌, if◌then◌else◌}

abbrev pub islower : ℕ → Bool
islower c = leb b'a' c && leb c b'z'

abbrev pub isupper : ℕ → Bool
isupper c = leb b'A' c && leb c b'Z'

abbrev pub isdigit : ℕ → Bool
isdigit c = leb b'0' c && leb c b'9'

-- space, \t, \n, \v, \f, \r
abbrev pub isspace : ℕ → Bool
isspace c = c == b' ' || leb 9 c && leb c 13

abbrev pub tolower : ℕ → ℕ
tolower c = if isupper c then c + 32 else c
