-- ===== src/Image/Patterns.antt =====
-- crates/nexide/src/image/glob.rs: the allowlists for local and remote images. The parts of a URL are
-- given by the url crate.
use nexide.Prelude.{
  ℕ, Bool, true, false, not, ◌&&◌, ◌||◌, List, [], ◌∷◌, Option, none, some, if◌then◌else◌, ◌==◌,
}
use nexide.Prelude.Text.{Text, text_eq}
use nexide.Prelude.Decimal.{to_string}
use nexide.Ops.Request.{is_empty}
use nexide.Image.Glob.{matches}

pub record LocalPattern : Type 0 where
  pub pathname : Option Text
  pub search : Option Text

pub record RemotePattern : Type 0 where
  pub protocol : Option Text
  pub hostname : Option Text
  pub port : Option Text
  pub pathname : Option Text
  pub search : Option Text

-- `scheme`, `host_str`, `port`, `path` and `query` of a parsed URL.
pub record UrlParts : Type 0 where
  pub scheme : Text
  pub host : Option Text
  pub port : Option ℕ
  pub path : Text
  pub query : Option Text

-- `o.unwrap_or(d)`
unfoldable pub or_default : Option Text → Text → Text
or_default none d = d
or_default (some t) d = t

abbrev pub any_path : Text
any_path = b'*' ∷ b'*' ∷ []

-- A part that the pattern may leave open.
unfoldable pub part_matches : Option Text → Text → Bool
part_matches none actual = true
part_matches (some wanted) actual = text_eq wanted actual

unfoldable pub local_one_matches : LocalPattern → Text → Text → Bool
unfolding matches or_default part_matches
local_one_matches p path search =
    matches (or_default p.pathname any_path) path true && part_matches p.search search

unfoldable pub any_local : List LocalPattern → Text → Text → Bool
unfolding local_one_matches
any_local [] path search = false
any_local (p ∷ ps) path search = local_one_matches p path search || any_local ps path search

unfoldable pub local_pattern_matches : List LocalPattern → Text → Text → Bool
unfolding any_local is_empty
local_pattern_matches patterns path search =
    if is_empty patterns then true else any_local patterns path search

-- `s.trim_end_matches(':')`
unfoldable pub trim_end_colon : Text → Text
unfolding is_empty
trim_end_colon [] = []
trim_end_colon (c ∷ s) =
    let rest = trim_end_colon s in if (c == b':') && is_empty rest then [] else c ∷ rest

unfoldable pub protocol_matches : Option Text → Text → Bool
unfolding trim_end_colon
protocol_matches none scheme = true
protocol_matches (some protocol) scheme = text_eq (trim_end_colon protocol) scheme

unfoldable pub port_text : Option ℕ → Text
unfolding to_string
port_text none = []
port_text (some p) = to_string p

unfoldable pub port_matches : Option Text → Option ℕ → Bool
unfolding port_text is_empty
port_matches none actual = true
port_matches (some port) actual = is_empty port || text_eq port (port_text actual)

unfoldable pub remote_one_matches : RemotePattern → UrlParts → Bool
unfolding protocol_matches or_default matches port_matches part_matches is_empty
remote_one_matches pattern url =
    let host_pat = or_default pattern.hostname [] in
    if not (protocol_matches pattern.protocol url.scheme)
    then false
    else if is_empty host_pat || not (matches host_pat (or_default url.host []) false)
    then false
    else if not (port_matches pattern.port url.port)
    then false
    else if not (matches (or_default pattern.pathname any_path) url.path true)
    then false
    else part_matches pattern.search (or_default url.query [])

unfoldable pub any_remote : List RemotePattern → UrlParts → Bool
unfolding remote_one_matches
any_remote [] url = false
any_remote (p ∷ ps) url = remote_one_matches p url || any_remote ps url

unfoldable pub any_domain : List Text → Text → Bool
any_domain [] host = false
any_domain (d ∷ ds) host = text_eq d host || any_domain ds host

unfoldable pub remote_pattern_matches : List RemotePattern → List Text → UrlParts → Bool
unfolding any_remote any_domain or_default is_empty
remote_pattern_matches patterns domains url =
    let host = or_default url.host [] in
    if not (is_empty host) && any_domain domains host then true else any_remote patterns url
