-- ===== src/Tests/Codec.antt =====
-- A signature and a payload coding that have the properties that the model asks of HMAC-SHA256 and
-- of msgpack. They stand in for them at the concrete inputs only.
use mathlib.Core.Option.{some-injective}
use lanmon.Prelude.{
  ℕ, zero, suc, ◌+◌, ◌%◌, ◌≡◌, refl, ◌<◌, Option, none, some, [], ◌∷◌, ◌++◌, Bytes, Text, length,
  arith,
}
use lanmon.Go.Int.{ℤ, pos, negsuc}
use lanmon.Beacon.Payload.{BeaconPayload}
use lanmon.Beacon.Hmac.{Mac, hmac_size}
use lanmon.Beacon.Packet.{Msgpack}

abbrev total : Bytes → ℕ
total [] = 0
total (b ∷ bs) = b + total bs

abbrev replicate : ℕ → ℕ → Bytes
replicate zero b = []
replicate (suc n) b = b ∷ replicate n b

abbrev pub toy_sum : Bytes → Bytes → Bytes
toy_sum key bytes = replicate 32 ((total key + total bytes) % 256)

pub length-toy_sum : (key bytes : Bytes) → length (toy_sum key bytes) ≡ hmac_size
length-toy_sum key bytes = refl

abbrev pub toy_mac : Mac
toy_mac = record { sum = toy_sum; length-sum = length-toy_sum }

infixl 5 ◌>>=◌
abbrev ◌>>=◌ {ℓ κ} : {A : Type ℓ} {B : Type κ} → Option A → (A → Option B) → Option B
none >>= f = none
some a >>= f = f a

unfoldable pub put_text : Text → Bytes → Bytes
put_text t rest = length t ∷ (t ++ rest)

unfoldable pub put_int : ℤ → Bytes → Bytes
put_int (pos n) rest = 0 ∷ n ∷ rest
put_int (negsuc n) rest = 1 ∷ n ∷ rest

abbrev cut : ℕ → Bytes → Option (Text × Bytes)
cut zero s = some ([], s)
cut (suc n) [] = none
cut (suc n) (c ∷ s) = cut n s >>= λ r. some (c ∷ r.0, r.1)

unfoldable pub get_text : Bytes → Option (Text × Bytes)
get_text [] = none
get_text (n ∷ s) = cut n s

unfoldable pub get_int : Bytes → Option (ℤ × Bytes)
get_int (zero ∷ n ∷ s) = some (pos n, s)
get_int (suc k ∷ n ∷ s) = some (negsuc n, s)
get_int _ = none

unfoldable pub get_num : Bytes → Option (ℕ × Bytes)
get_num [] = none
get_num (n ∷ s) = some (n, s)

cut-append : (t s : Bytes) → cut (length t) (t ++ s) ≡ some (t, s)
cut-append [] s = refl
cut-append (c ∷ t) s = rw (cut-append t s) refl

get-put_text : (t s : Bytes) → get_text (put_text t s) ≡ some (t, s)
unfolding get_text put_text
get-put_text t s = cut-append t s

get-put_int : (z : ℤ) (s : Bytes) → get_int (put_int z s) ≡ some (z, s)
unfolding get_int put_int
get-put_int (pos n) s = refl
get-put_int (negsuc n) s = refl

get-put_num : (n : ℕ) (s : Bytes) → get_num (n ∷ s) ≡ some (n, s)
unfolding get_num
get-put_num n s = refl

unfoldable pub encode : BeaconPayload → Bytes
encode p =
    p.version
    ∷ put_int p.timestamp (
        put_text p.mac_address (
          put_text p.ip_address (
            put_text p.hostname (
              put_text p.os.name (
                put_text p.os.kernel (
                  put_text p.os.arch (
                    put_text p.hardware.cpu_model (
                      put_int p.hardware.cpu_cores
                        (p.hardware.memory_gb ∷ put_int p.hardware.disk_count [])))))))))

unfoldable pub toy_decode : Bytes → Option BeaconPayload
toy_decode s = do
  (version, s1) ← get_num s
  (timestamp, s2) ← get_int s1
  (mac_address, s3) ← get_text s2
  (ip_address, s4) ← get_text s3
  (hostname, s5) ← get_text s4
  (name, s6) ← get_text s5
  (kernel, s7) ← get_text s6
  (arch, s8) ← get_text s7
  (cpu_model, s9) ← get_text s8
  (cpu_cores, s10) ← get_int s9
  (memory_gb, s11) ← get_num s10
  (disk_count, s12) ← get_int s11
  some (record {
    version = version;
    timestamp = timestamp;
    mac_address = mac_address;
    ip_address = ip_address;
    hostname = hostname;
    os = record { name = name; kernel = kernel; arch = arch };
    hardware = record {
      cpu_model = cpu_model;
      cpu_cores = cpu_cores;
      memory_gb = memory_gb;
      disk_count = disk_count;
    };
  })

toy_decode-encode : (p : BeaconPayload) → toy_decode (encode p) ≡ some p
unfolding toy_decode encode
toy_decode-encode p = simp (get-put_num, get-put_int, get-put_text)

pub toy_inverse : (p : BeaconPayload) (d : Bytes) → some (encode p) ≡ some d → toy_decode d ≡ some p
toy_inverse p d h = rw (← some-injective (encode p) d h) (toy_decode-encode p)

pub encode_nonempty : (p : BeaconPayload) (d : Bytes) → some (encode p) ≡ some d → 0 < length d
encode_nonempty p d h = rw (← some-injective (encode p) d h) (unfold encode in omega arith)

abbrev pub toy_msgpack : Msgpack
toy_msgpack = record {
  marshal = λ p. some (encode p);
  unmarshal = toy_decode;
  unmarshal-marshal = λ p d typed. toy_inverse p d;
  marshal_nonempty = encode_nonempty;
}
