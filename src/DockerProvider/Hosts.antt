-- ===== src/DockerProvider/Hosts.antt =====
-- internal/provider/dockerprov/engine.go: newEngine, buildTLS, setRegistryAuth, splitImageTag and
-- parseBytes. The files of TLS and the parsing of a URL are arguments, and so are JSON with base64.
use action_runner_cluster.Prelude.{
  Bool, Option, Text, [], codes, cut, false, has_prefix, has_suffix, if◌then◌else◌, int_eq, nat_beq,
  nat_eq, none, not, pair_eq, pos, reverse, some, text_eq, to_lower, trim_prefix, trim_space,
  trim_suffix, true, ℕ, ℤ, ◌&&◌, ◌++◌, ◌==◌, ◌^◌, ◌||◌, ◌∷◌,
}
use action_runner_cluster.Config.{DockerTls, RegistryAuth}

pub data Transport : Type 0 where
  unix_socket ssh_to : Text → Transport
  over_tcp : (tls : Option DockerTls) → Transport

pub record Engine : Type 0 where
  pub base_url : Text
  pub transport : Transport

-- What the TLS files come to.
pub record TlsFiles : Type 0 where
  pub ca_readable : Bool
  pub ca_has_certificates : Bool
  pub key_pair_loads : Bool

-- `buildTLS`, its success told from its errors.
unfoldable pub tls_loads : TlsFiles → DockerTls → Bool
tls_loads f o =
    if not (o.ca_file == []) && not (f.ca_readable && f.ca_has_certificates)
    then false
    else if (not (o.cert_file == []) || not (o.key_file == [])) && not f.key_pair_loads
    then false
    else true

default_host : Text → Text
default_host host = if host == [] then codes "unix:///var/run/docker.sock" else host

-- The loop over the three prefixes.
strip_schemes : Text → Text
unfolding trim_prefix
strip_schemes host =
    trim_prefix (trim_prefix (trim_prefix host (codes "tcp://")) (codes "http://"))
      (codes "https://")

tcp_engine : TlsFiles → Option DockerTls → Text → Option Engine
unfolding strip_schemes tls_loads has_prefix
tcp_engine f none host = some (record {
  base_url =
      (if has_prefix host (codes "https://") then codes "https" else codes "http")
      ++ (codes "://" ++ strip_schemes host);
  transport = over_tcp none;
})
tcp_engine f (some o) host =
    if tls_loads f o
    then some (record {
      base_url = codes "https" ++ (codes "://" ++ strip_schemes host);
      transport = over_tcp (some o);
    })
    else none

is_tcp : Text → Bool
unfolding has_prefix
is_tcp host =
    has_prefix host (codes "tcp://")
    || has_prefix host (codes "http://")
    || has_prefix host (codes "https://")

engine_at : (Text → Bool) → TlsFiles → Option DockerTls → Text → Option Engine
unfolding tcp_engine is_tcp has_prefix trim_prefix
engine_at url_parses f tls host =
    if has_prefix host (codes "unix://")
    then some (record {
      base_url = codes "http://docker";
      transport = unix_socket (trim_prefix host (codes "unix://"));
    })
    else if has_prefix host (codes "ssh://")
    then (if url_parses host
        then some (record { base_url = codes "http://docker"; transport = ssh_to host })
        else none)
    else if is_tcp host
    then tcp_engine f tls host
    else none

-- `newEngine`; none stands for its errors, also that of a named pipe.
unfoldable pub new_engine : (Text → Bool) → TlsFiles → Option DockerTls → Text → Option Engine
unfolding engine_at default_host
new_engine url_parses f tls host = engine_at url_parses f tls (default_host host)

-- `setRegistryAuth`: the header for pulls, given the encoding of the three values.
unfoldable pub registry_header : (Text → Text → Text → Text) → Option RegistryAuth → Text
registry_header encode none = []
registry_header encode (some a) =
    if (a.username == []) && (a.password == [])
    then []
    else encode a.username a.password
        (if a.server == [] then codes "https://index.docker.io/v1/" else a.server)

-- strings.LastIndex with the two parts: before the last `sep` and after it.
unfoldable pub cut_last : ℕ → Text → Option (Text × Text)
unfolding cut
cut_last sep s = elim (cut sep (reverse s)).1 [
  | none ↦ none
  | some before ↦ some (reverse before, reverse (cut sep (reverse s)).0)
]

has_byte : ℕ → Text → Bool
has_byte b [] = false
has_byte b (c ∷ s) = if nat_beq c b then true else has_byte b s

by_colon : Text → Text × Text
unfolding cut_last has_byte
by_colon image = elim (cut_last b':' image) [
  | none ↦ (image, codes "latest")
  | some parts ↦ if has_byte b'/' parts.1 then (image, codes "latest") else parts
]

-- `splitImageTag`
unfoldable pub split_image_tag : Text → Text × Text
unfolding by_colon cut_last
split_image_tag image = elim (cut_last b'@' image) [
  | none ↦ by_colon image
  | some parts ↦ if parts.0 == [] then by_colon image else parts
]

trim_unit : Text → Text → Text → Text
unfolding trim_suffix
trim_unit s long short = trim_suffix (trim_suffix s long) short

-- The switch of parseBytes: what is left of the text, and what it is multiplied by.
unfoldable pub size_unit : Text → Text × ℕ
unfolding trim_unit has_suffix trim_suffix
size_unit s =
    if has_suffix s (codes "gb") || has_suffix s (codes "g")
    then (trim_unit s (codes "gb") (codes "g"), 2 ^ 30)
    else if has_suffix s (codes "mb") || has_suffix s (codes "m")
    then (trim_unit s (codes "mb") (codes "m"), 2 ^ 20)
    else if has_suffix s (codes "kb") || has_suffix s (codes "k")
    then (trim_unit s (codes "kb") (codes "k"), 2 ^ 10)
    else if has_suffix s (codes "b")
    then (trim_suffix s (codes "b"), 1)
    else (s, 1)

-- `parseBytes`: `scaled` reads a fraction and multiplies it, none if it does not parse.
unfoldable pub parse_bytes : (Text → ℕ → Option ℤ) → Text → Option ℤ
unfolding size_unit to_lower trim_space
parse_bytes scaled text =
    let s : Text = trim_space (to_lower text) in
    if s == [] then some (pos 0) else scaled (trim_space (size_unit s).0) (size_unit s).1
