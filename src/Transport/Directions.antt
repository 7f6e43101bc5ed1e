-- ===== src/Transport/Directions.antt =====
-- The two sides of a connection derive the same ciphers.
use xcryptossh.Prelude.{◌≡◌, Bool, true, false, not, Result, ok, err}
use xcryptossh.Errors.{Error}
use xcryptossh.Negotiate.{Algorithms}
use xcryptossh.Transport.Keys.{KexResult, CipherSpec, in_order, prepare_key_change}

swapped :
    (A B : Result Error CipherSpec) (x y : CipherSpec)
    → in_order A B ≡ ok (x, y)
    → in_order B A ≡ ok (y, x)
swapped (ok a) (ok b) x y h = cc
swapped (ok a) (err e) x y h = cc
swapped (err e) B x y h = cc

-- Where the algorithms of the two directions are the same, the cipher that one side prepares for
-- reading is the one that the other side prepares for writing, on both sides.
pub prepare_key_change_agree :
    (is_client : Bool) (algs : Algorithms) (r : KexResult) (reader writer : CipherSpec)
    → algs.w ≡ algs.r
    → prepare_key_change is_client algs r ≡ ok (reader, writer)
    → prepare_key_change (not is_client) algs r ≡ ok (writer, reader)
unfolding prepare_key_change
prepare_key_change_agree true algs r reader writer e h =
    rw e (swapped _ _ reader writer (rw e at h))
prepare_key_change_agree false algs r reader writer e h =
    rw e (swapped _ _ reader writer (rw e at h))
