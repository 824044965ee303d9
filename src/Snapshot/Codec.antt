-- ===== src/Snapshot/Codec.antt =====
-- Simple codecs that keep what is read: an envelope is its texts with their lengths, and a snapshot is
-- its texts, each closed by the byte 255, with numbers in unary.
use auditchain_gateway_backe.Prelude.{
  ℕ, suc, zero, ◌<◌, ◌≡◌, refl, ap, Bool, true, false, ◌&&◌, Option, none, some, List, [], ◌∷◌,
  ◌++◌, length, take, drop, replicate, ltb, ◌==◌, if◌then◌else◌, arith,
}
use auditchain_gateway_backe.Prelude.Text.{Text}
use auditchain_gateway_backe.Prelude.Int.{ℤ, pos, negsuc}
use auditchain_gateway_backe.Prelude.Counts.{All}
use auditchain_gateway_backe.Base64.RoundTrip.{IsByte}
use auditchain_gateway_backe.Snapshot.{AuditSnapshot, EncryptedEnvelope, Codecs}
use auditchain_gateway_backe.Snapshot.Restore.{HasLaws, snapshot_texts}

-- two texts in one, and the two texts of one
pack : Text → Text → Text
pack a b = length a ∷ (a ++ b)

unpack : Text → Text × Text
unpack [] = ([], [])
unpack (n ∷ s) = (take n s, drop n s)

take-length-append : (a b : Text) → take (length a) (a ++ b) ≡ a
take-length-append [] b = refl
take-length-append (c ∷ a) b = ap (λ s. c ∷ s) (take-length-append a b)

drop-length-append : (a b : Text) → drop (length a) (a ++ b) ≡ b
drop-length-append [] b = refl
drop-length-append (c ∷ a) b = drop-length-append a b

unpack-pack : (a b : Text) → unpack (pack a b) ≡ (a, b)
unfolding pack unpack
unpack-pack a b = rw (take-length-append a b, drop-length-append a b) refl

pub write_envelope : EncryptedEnvelope → Text
write_envelope e = e.envelope_version ∷ pack e.algorithm (pack e.key_id (pack e.nonce e.ciphertext))

pub read_envelope : Text → Option EncryptedEnvelope
read_envelope [] = none
read_envelope (v ∷ s) =
    let (algorithm, s1) = unpack s in
    let (key_id, s2) = unpack s1 in
    let (nonce, ciphertext) = unpack s2 in
    some (record {
      envelope_version = v;
      algorithm = algorithm;
      key_id = key_id;
      nonce = nonce;
      ciphertext = ciphertext;
    })

read-write_envelope : (e : EncryptedEnvelope) → read_envelope (write_envelope e) ≡ some e
unfolding read_envelope write_envelope
read-write_envelope e =
    rw
      (
        unpack-pack e.algorithm (pack e.key_id (pack e.nonce e.ciphertext)),
        unpack-pack e.key_id (pack e.nonce e.ciphertext),
        unpack-pack e.nonce e.ciphertext,
      )
      refl

-- the texts that the codecs take for UTF-8, and for JSON
unfoldable pub all_ascii : Text → Bool
all_ascii [] = true
all_ascii (c ∷ s) = ltb c 128 && all_ascii s

close_text : Text → Text → Text
close_text [] rest = 255 ∷ rest
close_text (c ∷ s) rest = c ∷ close_text s rest

add_first : ℕ → Text × Text → Text × Text
add_first c (s, rest) = (c ∷ s, rest)

open_text : Text → Text × Text
open_text [] = ([], [])
open_text (c ∷ s) = if c == 255 then ([], s) else add_first c (open_text s)

no_close : (c : ℕ) (s : Text) → all_ascii (c ∷ s) ≡ true → (c == 255) ≡ false
unfolding all_ascii
no_close c s h = ground arith

rest_ascii : (c : ℕ) (s : Text) → all_ascii (c ∷ s) ≡ true → all_ascii s ≡ true
unfolding all_ascii
rest_ascii c s h = ground arith

open-close_text : (s rest : Text) → all_ascii s ≡ true → open_text (close_text s rest) ≡ (s, rest)
unfolding open_text close_text all_ascii add_first
open-close_text [] rest h = refl
open-close_text (c ∷ s) rest h = rw (no_close c s h, open-close_text s rest (rest_ascii c s h)) refl

close_text-bytes :
    (s rest : Text) → all_ascii s ≡ true → All IsByte rest → All IsByte (close_text s rest)
unfolding close_text all_ascii
close_text-bytes [] rest h k = (omega arith, k)
close_text-bytes (c ∷ s) rest h k = (ground arith, close_text-bytes s rest (ground arith) k)

-- a number in unary
unary : ℕ → Text
unary n = replicate n 1

length-unary : (n : ℕ) → length (unary n) ≡ n
unfolding unary
length-unary zero = refl
length-unary (suc n) = ap suc (length-unary n)

unary-ascii : (n : ℕ) → all_ascii (unary n) ≡ true
unfolding unary all_ascii
unary-ascii zero = refl
unary-ascii (suc n) = unary-ascii n

-- an integer and a time that may be absent, as texts
int_text : ℤ → Text
int_text (pos n) = 2 ∷ unary n
int_text (negsuc n) = 3 ∷ unary n

read_int : Text → ℤ
read_int [] = pos 0
read_int (c ∷ s) = if c == 2 then pos (length s) else negsuc (length s)

time_text : Option ℤ → Text
time_text none = []
time_text (some t) = int_text t

read_time : Text → Option ℤ
read_time [] = none
read_time (c ∷ s) = some (read_int (c ∷ s))

int_text-ascii : (t : ℤ) → all_ascii (int_text t) ≡ true
unfolding int_text all_ascii
int_text-ascii (pos n) = unary-ascii n
int_text-ascii (negsuc n) = unary-ascii n

time_text-ascii : (o : Option ℤ) → all_ascii (time_text o) ≡ true
unfolding time_text all_ascii
time_text-ascii none = refl
time_text-ascii (some t) = int_text-ascii t

read-int_text : (t : ℤ) → read_int (int_text t) ≡ t
unfolding read_int int_text
read-int_text (pos n) = ap pos (length-unary n)
read-int_text (negsuc n) = ap negsuc (length-unary n)

read-time_text : (o : Option ℤ) → read_time (time_text o) ≡ o
unfolding read_time time_text int_text
read-time_text none = refl
read-time_text (some (pos n)) = ap some (read-int_text (pos n))
read-time_text (some (negsuc n)) = ap some (read-int_text (negsuc n))

close_all : List Text → Text
close_all [] = []
close_all (t ∷ ts) = close_text t (close_all ts)

open_all : ℕ → Text → List Text
open_all zero s = []
open_all (suc n) s = let (t, rest) = open_text s in t ∷ open_all n rest

abbrev AreAscii : List Text → Type 0
AreAscii = All (λ (t : Text). all_ascii t ≡ true)

open-close_all : (ts : List Text) → AreAscii ts → open_all (length ts) (close_all ts) ≡ ts
unfolding open_all close_all
open-close_all [] h = refl
open-close_all (t ∷ ts) h =
    rw (open-close_text t (close_all ts) h.0) (ap (◌∷◌ t) (open-close_all ts h.1))

close_all-bytes : (ts : List Text) → AreAscii ts → All IsByte (close_all ts)
unfolding close_all
close_all-bytes [] h = tt
close_all-bytes (t ∷ ts) h = close_text-bytes t (close_all ts) h.0 (close_all-bytes ts h.1)

abbrev parts : AuditSnapshot → List Text
parts s =
    unary s.schema_version
    ∷ int_text s.timestamp
    ∷ time_text s.db_timestamp
    ∷ int_text s.captured_at
    ∷ s.metadata
    ∷ s.snapshot_type
    ∷ s.hash_algorithm
    ∷ s.log_id
    ∷ s.client_id
    ∷ s.actor
    ∷ s.action
    ∷ s.resource
    ∷ s.source_system
    ∷ s.authorization_context
    ∷ s.hash_value
    ∷ []

snapshot_from : List Text → Option AuditSnapshot
snapshot_from
      (version ∷ time ∷ db ∷ captured ∷ metadata ∷ kind ∷ algorithm ∷ log ∷ client ∷ actor ∷ action
        ∷ resource ∷ system ∷ context ∷ hash ∷ []) =
    some (record {
      schema_version = length version;
      snapshot_type = kind;
      log_id = log;
      client_id = client;
      actor = actor;
      action = action;
      resource = resource;
      timestamp = read_int time;
      db_timestamp = read_time db;
      source_system = system;
      authorization_context = context;
      metadata = metadata;
      hash_algorithm = algorithm;
      hash_value = hash;
      captured_at = read_int captured;
    })
snapshot_from _ = none

pub write_snapshot : AuditSnapshot → Text
write_snapshot s = close_all (parts s)

pub read_snapshot_text : Text → Option AuditSnapshot
read_snapshot_text t = snapshot_from (open_all 15 t)

abbrev pub codecs : Codecs
codecs = record {
  utf8_valid = all_ascii;
  compact = λ s. s;
  json_valid = all_ascii;
  marshal_snapshot = write_snapshot;
  unmarshal_snapshot = read_snapshot_text;
  marshal_envelope = write_envelope;
  unmarshal_envelope = read_envelope;
  seal = λ key iv plaintext. plaintext;
  unseal = λ key iv bytes. some bytes;
}

ascii-All : (t : Text) → All (λ (c : ℕ). c < 128) t → all_ascii t ≡ true
unfolding all_ascii
ascii-All [] h = refl
ascii-All (c ∷ t) h = ground (arith, ascii-All t h.1)

parts-AreAscii :
    (s : AuditSnapshot)
    → AreAscii (snapshot_texts codecs s)
    → all_ascii s.metadata ≡ true
    → AreAscii (parts s)
parts-AreAscii s h k = (
  unary-ascii s.schema_version,
  (
    int_text-ascii s.timestamp,
    (time_text-ascii s.db_timestamp, (int_text-ascii s.captured_at, (k, h))),
  ),
)

read-write_snapshot :
    (s : AuditSnapshot) → AreAscii (parts s) → read_snapshot_text (write_snapshot s) ≡ some s
unfolding read_snapshot_text write_snapshot snapshot_from
read-write_snapshot s h = rw (open-close_all (parts s) h) (
    rw
      (
        length-unary s.schema_version,
        read-int_text s.timestamp,
        read-time_text s.db_timestamp,
        read-int_text s.captured_at,
      )
      refl)

pub codecs-HasLaws : HasLaws codecs
unfolding write_snapshot
codecs-HasLaws = record {
  ascii = ascii-All;
  envelopes = λ e a k n c. read-write_envelope e;
  snapshots = λ s texts json. read-write_snapshot s (parts-AreAscii s texts json);
  compacts = λ t h. h;
  opens = λ key iv plaintext h k. refl;
  bytes = λ key iv plaintext h. h;
  texts = λ s texts json. close_all-bytes (parts s) (parts-AreAscii s texts json);
}
