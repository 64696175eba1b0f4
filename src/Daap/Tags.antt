-- ===== src/Daap/Tags.antt =====
-- The content codes of core/encoding/daap.ts, as character codes.
use bunatv.Prelude.{ℕ, List, [], ◌∷◌}

abbrev pub mlit : List ℕ
mlit = b'm' ∷ b'l' ∷ b'i' ∷ b't' ∷ []

abbrev pub mlcl : List ℕ
mlcl = b'm' ∷ b'l' ∷ b'c' ∷ b'l' ∷ []

abbrev pub mcon : List ℕ
mcon = b'm' ∷ b'c' ∷ b'o' ∷ b'n' ∷ []

abbrev pub msrv : List ℕ
msrv = b'm' ∷ b's' ∷ b'r' ∷ b'v' ∷ []

abbrev pub miid : List ℕ
miid = b'm' ∷ b'i' ∷ b'i' ∷ b'd' ∷ []

abbrev pub minm : List ℕ
minm = b'm' ∷ b'i' ∷ b'n' ∷ b'm' ∷ []

abbrev pub mikd : List ℕ
mikd = b'm' ∷ b'i' ∷ b'k' ∷ b'd' ∷ []

abbrev pub mper : List ℕ
mper = b'm' ∷ b'p' ∷ b'e' ∷ b'r' ∷ []

abbrev pub asal : List ℕ
asal = b'a' ∷ b's' ∷ b'a' ∷ b'l' ∷ []

abbrev pub asar : List ℕ
asar = b'a' ∷ b's' ∷ b'a' ∷ b'r' ∷ []

abbrev pub asaa : List ℕ
asaa = b'a' ∷ b's' ∷ b'a' ∷ b'a' ∷ []

abbrev pub ascp : List ℕ
ascp = b'a' ∷ b's' ∷ b'c' ∷ b'p' ∷ []

abbrev pub asgn : List ℕ
asgn = b'a' ∷ b's' ∷ b'g' ∷ b'n' ∷ []

abbrev pub astm : List ℕ
astm = b'a' ∷ b's' ∷ b't' ∷ b'm' ∷ []

abbrev pub astn : List ℕ
astn = b'a' ∷ b's' ∷ b't' ∷ b'n' ∷ []

abbrev pub asdc : List ℕ
asdc = b'a' ∷ b's' ∷ b'd' ∷ b'c' ∷ []

abbrev pub asdn : List ℕ
asdn = b'a' ∷ b's' ∷ b'd' ∷ b'n' ∷ []

abbrev pub astc : List ℕ
astc = b'a' ∷ b's' ∷ b't' ∷ b'c' ∷ []

abbrev pub asyr : List ℕ
asyr = b'a' ∷ b's' ∷ b'y' ∷ b'r' ∷ []

abbrev pub asbr : List ℕ
asbr = b'a' ∷ b's' ∷ b'b' ∷ b'r' ∷ []

abbrev pub assr : List ℕ
assr = b'a' ∷ b's' ∷ b's' ∷ b'r' ∷ []

abbrev pub assz : List ℕ
assz = b'a' ∷ b's' ∷ b's' ∷ b'z' ∷ []

abbrev pub caps : List ℕ
caps = b'c' ∷ b'a' ∷ b'p' ∷ b's' ∷ []

abbrev pub cash : List ℕ
cash = b'c' ∷ b'a' ∷ b's' ∷ b'h' ∷ []

abbrev pub carp : List ℕ
carp = b'c' ∷ b'a' ∷ b'r' ∷ b'p' ∷ []

abbrev pub cavs : List ℕ
cavs = b'c' ∷ b'a' ∷ b'v' ∷ b's' ∷ []

abbrev pub aepp : List ℕ
aepp = b'a' ∷ b'e' ∷ b'P' ∷ b'P' ∷ []
