-- ===== src/Vhsm/Certificate.antt =====
-- The certificate builders of crates/vhsm-daemon/src/handler.rs. DER is laid out by the
-- parameters; what is put into each field is modelled. `now` is in seconds.
use Prim.Native.String.{String, ◌++◌, [], ◌∷◌}
use kms_platform.Common.{
  ℕ, zero, suc, ◌+◌, ◌-◌, ◌*◌, Bool, true, false, Bytes, Result, ok, err, map_err, ◌>>=◌, length,
  ◌==◌, not, if◌then◌else◌, none, some,
}
use mathlib.Core.List
use kms_platform.Host.{Host, CertificateParams, RcgenCertificate, TbsCertificate}

abbrev pub seconds_per_day : ℕ
seconds_per_day = 86400

-- `b64.as_bytes().chunks(64)`: at most `room` more characters go on the present line.
unfoldable pub wrap_lines : ℕ → String → String
wrap_lines room [] = if room == 64 then [] else "\n"
wrap_lines zero (c ∷ s) = "\n" ++ (c ∷ wrap_lines 63 s)
wrap_lines (suc room) (c ∷ s) = c ∷ wrap_lines room s

unfoldable pub certificate_pem : String → String
unfolding wrap_lines
certificate_pem b64 =
    "-----BEGIN CERTIFICATE-----\n" ++ (wrap_lines 64 b64 ++ "-----END CERTIFICATE-----\n")

module _ (h : Host) where
  unfoldable pub parse_pem_to_der : String → Result String Bytes
  parse_pem_to_der pem = map_err (λ e. "PEM parse error: " ++ e) (h.parse_pem pem)

  unfoldable pub root_ca_params : ℕ → ℕ → String → ℕ → CertificateParams
  root_ca_params draw now common_name validity_days =
      let not_before = now - 1 * seconds_per_day in
      record {
        subject_alt_names = List.◌∷◌ common_name List.[];
        is_ca = true;
        not_before = not_before;
        not_after = not_before + validity_days * seconds_per_day;
        serial_number = h.random draw 8;
        common_name = common_name;
      }

  -- What is read off the finished certificate: the private scalar, the public key in SEC1 form and
  -- the PEM text.
  unfoldable pub root_ca_parts : RcgenCertificate → Result String (Bytes × Bytes × String)
  root_ca_parts cert = do
    cert_pem ← map_err (λ e. "Failed to serialize Root CA certificate: " ++ e) cert.pem
    secret_key ←
        map_err (λ e. "Failed to parse generated CA private key: " ++ e)
          (h.from_pkcs8_der cert.private_key_der)
    ok (secret_key, h.public_point secret_key, cert_pem)

  -- A new self-signed CA.
  unfoldable pub build_root_ca_certificate_pem :
      ℕ → ℕ → String → ℕ → Result String (Bytes × Bytes × String)
  unfolding root_ca_params root_ca_parts
  build_root_ca_certificate_pem draw now common_name validity_days = do
    cert ←
        map_err (λ e. "Failed to build self-signed Root CA certificate: " ++ e)
          (h.certificate_from_params (draw + 1) (root_ca_params draw now common_name validity_days))
    root_ca_parts cert

  -- The SubjectPublicKeyInfo that is certified: the request's, or the CA's own.
  subject_spki : Bytes → Bytes → Bool → Result String Bytes
  subject_spki ca_sk csr_der true = elim (h.parse_csr csr_der) [
    | none ↦ err "Failed to parse CSR to extract SubjectPublicKeyInfo"
    | some csr ↦ ok csr.subject_pki
  ]
  subject_spki ca_sk csr_der false = ok (h.spki_der (h.public_point ca_sk))

  -- keyUsage is the octet 0x06: keyCertSign and cRLSign.
  unfoldable pub tbs_certificate : ℕ → ℕ → Bytes → ℕ → TbsCertificate
  tbs_certificate draw now spki validity_days = record {
    version = 2;
    serial = h.random draw 8;
    issuer_common_name = "kms-root-ca";
    not_before = now;
    not_after = now + validity_days * seconds_per_day;
    subject_common_name = "kms-root-ca";
    subject_pki_der = spki;
    basic_constraints_ca = true;
    key_usage = List.◌∷◌ 0x06 List.[];
  }

  unfoldable pub build_and_sign_certificate :
      ℕ → ℕ → Bytes → Bytes → ℕ → Bool → Result String String
  unfolding subject_spki tbs_certificate certificate_pem
  build_and_sign_certificate draw now ca_sk csr_der validity_days is_csr =
      if not (length ca_sk == 32)
      then err "Invalid CA private key length"
      else if not (h.is_scalar ca_sk)
      then err "Failed to construct signing key"
      else do
        spki ← subject_spki ca_sk csr_der is_csr
        let tbs_der = h.tbs_der (tbs_certificate draw now spki validity_days)
        ok (certificate_pem (h.base64 (h.certificate_der tbs_der (h.sign ca_sk tbs_der))))
