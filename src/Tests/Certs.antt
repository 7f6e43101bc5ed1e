-- ===== src/Tests/Certs.antt =====
-- Certificates for a host, checked against a known_hosts database with one authority.
use xcryptossh.Prelude.{
  Some, ◌^◌, ◌-◌, ◌≡◌, ◌↔◌, refl, [], ◌∷◌, none, some, Bytes, true, codes, arith, bytes_eq,
}
use xcryptossh.Hosts.{wildcard_match, patterns_match}
use xcryptossh.Hosts.Addresses.{split_host_port}
use xcryptossh.Hosts.Normal.{exactly}
use xcryptossh.Hosts.Database.{HostKeyDb, patterns, lookup, is_host_authority}
use xcryptossh.Certs.{Certificate, certificate, check_cert, host_cert, check_host_key}
use xcryptossh.Certs.Checks.{IsAccepted, check_cert_iff}
use xcryptossh.Certs.Hosts.{
  Surroundings, new_checker, new_callback, IsAuthorityLine, new_callback-IsAccepted,
}
use xcryptossh.Tests.Hosts.{byte_keys}

abbrev of_host : Certificate Bytes
of_host = record {
  nonce = [];
  key = codes "K";
  serial = 7;
  cert_type = 2;
  key_id = codes "id";
  valid_principals = codes "h.b" ∷ [];
  valid_after = 10;
  valid_before = 2 ^ 64 - 1;
  critical_options = (codes "source-address", codes "10.0.0.1") ∷ [];
  extensions = [];
  reserved = [];
  signature_key = codes "CA";
  signature = some [];
}

abbrev outside : Surroundings byte_keys
outside = record { marshal_cert = λ c. codes "cert"; now = 1000; verifies = λ c. true }

abbrev one_authority : HostKeyDb Bytes
one_authority = record {
  revoked = (codes "other", record { key = codes "other"; filename = []; line = 1 }) ∷ [];
  lines =
      record {
        cert = true;
        matcher = patterns (exactly (codes "*.b") (codes "22") ∷ []);
        known = record { key = codes "CA"; filename = []; line = 2 };
      }
      ∷ [];
}

check_cert_iff_example :
    (check_cert (new_checker byte_keys outside one_authority) (codes "h.b") of_host ≡ none)
    ↔ IsAccepted (new_checker byte_keys outside one_authority) (codes "h.b") of_host
check_cert_iff_example =
    check_cert_iff (new_checker byte_keys outside one_authority) (codes "h.b") of_host (omega arith)

accepted :
    new_callback byte_keys outside one_authority
      (codes "h.b:22")
      (codes "1.2.3.4:22")
      (certificate of_host)
    ≡ none
unfolding new_callback check_host_key is_host_authority wildcard_match patterns_match bytes_eq
    lookup
accepted = refl

new_callback-IsAccepted_example :
    (of_host.cert_type ≡ host_cert)
    × ((parts : Bytes × Bytes) × (split_host_port (codes "h.b:22") ≡ some parts)
        × Some (IsAuthorityLine byte_keys of_host.signature_key parts) one_authority.lines
        × IsAccepted (new_checker byte_keys outside one_authority) parts.0 of_host)
new_callback-IsAccepted_example =
    new_callback-IsAccepted byte_keys outside one_authority (codes "h.b:22") (codes "1.2.3.4:22")
      of_host (omega arith) accepted
