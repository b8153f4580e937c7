-- ===== src/Identity.antt =====
-- identity/cert.go, identity/entry.go and identity/cert_identity.go: the short id of an identity, which
-- is the MSP id beside the encoded subject and issuer of its certificate. encoding/base64 is a
-- parameter.
use cckit.Base.{◌++◌, Text, codes, Bool, ◌&&◌, text_eq}
use cckit.Owner.{Identity, Entry}

-- identity.Id
pub record ShortId : Type 0 where
  pub msp : Text
  pub cert : Text

-- IDRaw
unfoldable pub id_raw : Text → Text → Text
id_raw subject issuer = codes "x509::" ++ (subject ++ (codes "::" ++ issuer))

module _ (base64 : Text → Text) where
  -- ID
  unfoldable pub id : Text → Text → Text
  unfolding id_raw
  id subject issuer = base64 (id_raw subject issuer)

  -- GetMSPID and GetID of an identity that is made from a certificate.
  unfoldable pub id_of_cert : Identity → ShortId
  unfolding id
  id_of_cert ci = record { msp = ci.msp_id; cert = id ci.subject ci.issuer }

  -- GetMSPID and GetID of an entry.
  unfoldable pub id_of_entry : Entry → ShortId
  unfolding id
  id_of_entry e = record { msp = e.msp_id; cert = id e.subject e.issuer }

-- `a.MSP == b.MSP && a.Cert == b.Cert`
unfoldable pub same_id : ShortId → ShortId → Bool
same_id a b = text_eq a.msp b.msp && text_eq a.cert b.cert
