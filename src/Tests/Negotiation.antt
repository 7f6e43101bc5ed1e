-- ===== src/Tests/Negotiation.antt =====
-- The negotiation of common.go, at concrete lists of names.
use xcryptossh.Prelude.{◌≡◌, refl, List, [], ◌∷◌, none, some, ok, Bytes, false, codes, bytes_eq}
use xcryptossh.Messages.{KexInit}
use xcryptossh.Negotiate.{offers, find_common, Algorithms, find_agreed_algorithms, Config}
use xcryptossh.Negotiate.Agreement.{
  IsFirstCommon, IsAgreed, find_agreed_algorithms_sound, find_agreed_algorithms_complete,
}

abbrev only : Bytes → KexInit
only c = record {
  cookie = [];
  kex_algos = (1 ∷ []) ∷ (2 ∷ []) ∷ [];
  server_host_key_algos = (3 ∷ []) ∷ [];
  ciphers_client_server = c ∷ (4 ∷ []) ∷ [];
  ciphers_server_client = c ∷ (4 ∷ []) ∷ [];
  macs_client_server = (5 ∷ []) ∷ [];
  macs_server_client = (5 ∷ []) ∷ [];
  compression_client_server = (6 ∷ []) ∷ [];
  compression_server_client = (6 ∷ []) ∷ [];
  languages_client_server = [];
  languages_server_client = [];
  first_kex_follows = false;
  reserved = 0;
}

abbrev agreed : Algorithms
agreed = record {
  kex = 1 ∷ [];
  host_key = 3 ∷ [];
  w = record { cipher = 4 ∷ []; mac = 5 ∷ []; compression = 6 ∷ [] };
  r = record { cipher = 4 ∷ []; mac = 5 ∷ []; compression = 6 ∷ [] };
}

find_agreed_algorithms_sound_example : IsAgreed (only (7 ∷ [])) (only (8 ∷ [])) agreed
unfolding find_agreed_algorithms find_common offers bytes_eq
find_agreed_algorithms_sound_example =
    find_agreed_algorithms_sound (only (7 ∷ [])) (only (8 ∷ [])) agreed refl

head_common : IsFirstCommon ((3 ∷ []) ∷ []) ((3 ∷ []) ∷ []) (3 ∷ [])
unfolding offers bytes_eq
head_common = record { before = []; after = []; split = refl; none_before = tt; shared = refl }

all_agreed : IsAgreed (only (7 ∷ [])) (only (8 ∷ [])) agreed
unfolding offers bytes_eq
all_agreed = record {
  kex = record {
    before = [];
    after = (2 ∷ []) ∷ [];
    split = refl;
    none_before = tt;
    shared = refl;
  };
  host_key = head_common;
  w_cipher = record {
    before = (7 ∷ []) ∷ [];
    after = [];
    split = refl;
    none_before = (refl, tt);
    shared = refl;
  };
  r_cipher = record {
    before = (7 ∷ []) ∷ [];
    after = [];
    split = refl;
    none_before = (refl, tt);
    shared = refl;
  };
  w_mac = record { before = []; after = []; split = refl; none_before = tt; shared = refl };
  r_mac = record { before = []; after = []; split = refl; none_before = tt; shared = refl };
  w_compression = record { before = []; after = []; split = refl; none_before = tt; shared = refl };
  r_compression = record { before = []; after = []; split = refl; none_before = tt; shared = refl };
}

find_agreed_algorithms_complete_example :
    find_agreed_algorithms (only (7 ∷ [])) (only (8 ∷ [])) ≡ ok agreed
find_agreed_algorithms_complete_example =
    find_agreed_algorithms_complete (only (7 ∷ [])) (only (8 ∷ [])) agreed all_agreed

abbrev asks_for : List Bytes → Config
asks_for cs = record {
  has_rand = false;
  rekey_threshold = 1;
  key_exchanges = none;
  ciphers = some cs;
  macs = none;
  has_halt = false;
}

abbrev arcfour_only : Config
arcfour_only = asks_for (codes "blowfish" ∷ codes "arcfour" ∷ [])
