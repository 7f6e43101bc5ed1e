-- ===== src/Negotiate/Agreement.antt =====
-- What findCommon and findAgreedAlgorithms choose.
use xcryptossh.Prelude.{
  >>=-eq-ok, ◌≡◌, refl, List, [], ◌∷◌, ◌++◌, Bytes, true, false, ok, err, arith, All, Bool-cases,
  inl, inr, bytes_eq_refl, ap, ◌∙◌, ◌↔◌, codes,
}
use xcryptossh.Errors.{Error}
use xcryptossh.Messages.{KexInit}
use xcryptossh.Negotiate.{offers, find_common, Algorithms, find_agreed_algorithms}

-- `c` is the first name of `client` that `server` offers too.
pub record IsFirstCommon (client server : List Bytes) (c : Bytes) : Type 0 where
  pub before : List Bytes
  pub after : List Bytes
  pub split : client ≡ before ++ (c ∷ after)
  pub none_before : All (λ b. offers server b ≡ false) before
  pub shared : offers server c ≡ true

offers-split : (c : Bytes) (before after : List Bytes) → offers (before ++ (c ∷ after)) c ≡ true
unfolding offers
offers-split c [] after = ground (arith, bytes_eq_refl c)
offers-split c (b ∷ bs) after = ground (arith, offers-split c bs after)

pub find_common_sound :
    (what : Bytes) (client server : List Bytes) (c : Bytes)
    → find_common what client server ≡ ok c
    → IsFirstCommon client server c
unfolding find_common
find_common_sound what [] server c e = cc
find_common_sound what (x ∷ xs) server c e = elim (Bool-cases (offers server x)) [
  | inl p ↦ record {
    before = [];
    after = xs;
    split = ground (arith, p);
    none_before = tt;
    shared = ground (arith, p);
  }
  | inr p ↦
      let r : IsFirstCommon xs server c = find_common_sound what xs server c (rw p at e) in
      record {
        before = x ∷ r.before;
        after = r.after;
        split = ap (λ l. x ∷ l) r.split;
        none_before = (p, r.none_before);
        shared = r.shared;
      }
]

find_common_past :
    (what : Bytes) (before client server : List Bytes)
    → All (λ b. offers server b ≡ false) before
    → find_common what (before ++ client) server ≡ find_common what client server
unfolding find_common
find_common_past what [] client server h = refl
find_common_past what (b ∷ bs) client server h = rw h.0 (find_common_past what bs client server h.1)

find_common_here :
    (what c : Bytes) (after server : List Bytes)
    → offers server c ≡ true
    → find_common what (c ∷ after) server ≡ ok c
unfolding find_common
find_common_here what c after server h = rw h

find_common_complete :
    (what : Bytes) (client server : List Bytes) (c : Bytes)
    → IsFirstCommon client server c
    → find_common what client server ≡ ok c
find_common_complete what client server c r = rw r.split (
    find_common_past what r.before (c ∷ r.after) server r.none_before
    ∙ find_common_here what c r.after server r.shared)

-- findCommon returns `c` exactly if `c` is the first name of the client's list that the server
-- offers too: the client's order decides.
pub find_common_iff :
    (what : Bytes) (client server : List Bytes) (c : Bytes)
    → (find_common what client server ≡ ok c) ↔ IsFirstCommon client server c
find_common_iff what client server c =
    (find_common_sound what client server c, find_common_complete what client server c)

-- It fails, and says what for, where the client names nothing that the server offers.
pub find_common_fails :
    (what : Bytes) (client server : List Bytes)
    → All (λ c. offers server c ≡ false) client
    → find_common what client server ≡ err (Error.no_common what)
unfolding find_common
find_common_fails what [] server h = refl
find_common_fails what (x ∷ xs) server h = rw h.0 (find_common_fails what xs server h.1)

-- Every algorithm of a set is the first common one of its two lists.
pub record IsAgreed (client server : KexInit) (a : Algorithms) : Type 0 where
  pub kex : IsFirstCommon client.kex_algos server.kex_algos a.kex
  pub host_key : IsFirstCommon client.server_host_key_algos server.server_host_key_algos a.host_key
  pub w_cipher : IsFirstCommon client.ciphers_client_server server.ciphers_client_server a.w.cipher
  pub r_cipher : IsFirstCommon client.ciphers_server_client server.ciphers_server_client a.r.cipher
  pub w_mac : IsFirstCommon client.macs_client_server server.macs_client_server a.w.mac
  pub r_mac : IsFirstCommon client.macs_server_client server.macs_server_client a.r.mac
  pub w_compression :
      IsFirstCommon client.compression_client_server server.compression_client_server
        a.w.compression
  pub r_compression :
      IsFirstCommon client.compression_server_client server.compression_server_client
        a.r.compression

-- Where findAgreedAlgorithms succeeds, each of the eight names is the first of the client's list
-- for it that the server offers, write and read sides as the client sees them.
pub find_agreed_algorithms_sound :
    (client server : KexInit) (a : Algorithms)
    → find_agreed_algorithms client server ≡ ok a
    → IsAgreed client server a
unfolding find_agreed_algorithms
find_agreed_algorithms_sound client server a e =
    let (kex, e1, h1) = >>=-eq-ok _ _ e in
    let (host_key, e2, h2) = >>=-eq-ok _ _ h1 in
    let (w_cipher, e3, h3) = >>=-eq-ok _ _ h2 in
    let (r_cipher, e4, h4) = >>=-eq-ok _ _ h3 in
    let (w_mac, e5, h5) = >>=-eq-ok _ _ h4 in
    let (r_mac, e6, h6) = >>=-eq-ok _ _ h5 in
    let (w_compression, e7, h7) = >>=-eq-ok _ _ h6 in
    let (r_compression, e8, h8) = >>=-eq-ok _ _ h7 in
    record {
      kex = find_common_sound _ _ _ _ (e1 ∙ ground arith);
      host_key = find_common_sound _ _ _ _ (e2 ∙ ground arith);
      w_cipher = find_common_sound _ _ _ _ (e3 ∙ ground arith);
      r_cipher = find_common_sound _ _ _ _ (e4 ∙ ground arith);
      w_mac = find_common_sound _ _ _ _ (e5 ∙ ground arith);
      r_mac = find_common_sound _ _ _ _ (e6 ∙ ground arith);
      w_compression = find_common_sound _ _ _ _ (e7 ∙ ground arith);
      r_compression = find_common_sound _ _ _ _ (e8 ∙ ground arith);
    }

-- Where each of the eight names of a set is the first of the client's list for it that the server
-- offers, findAgreedAlgorithms succeeds with that set.
pub find_agreed_algorithms_complete :
    (client server : KexInit) (a : Algorithms)
    → IsAgreed client server a
    → find_agreed_algorithms client server ≡ ok a
unfolding find_agreed_algorithms
find_agreed_algorithms_complete client server a h = rw (
  find_common_complete (codes "key exchange") _ _ _ h.kex,
  find_common_complete (codes "host key") _ _ _ h.host_key,
  find_common_complete (codes "client to server cipher") _ _ _ h.w_cipher,
  find_common_complete (codes "server to client cipher") _ _ _ h.r_cipher,
  find_common_complete (codes "client to server MAC") _ _ _ h.w_mac,
  find_common_complete (codes "server to client MAC") _ _ _ h.r_mac,
  find_common_complete (codes "client to server compression") _ _ _ h.w_compression,
  find_common_complete (codes "server to client compression") _ _ _ h.r_compression,
)
