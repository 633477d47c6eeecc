-- ===== src/Storage/Sharing/Quoting.antt =====
-- That what rust/adsb-data-engine/src/share.rs writes between quotation marks is read back by SQL as it was.
use mathlib.Core.List.{append_assoc}
use mathlib.Core.Option
use adsb_feed.Prelude.{
  ℕ, ◌≡◌, refl, sym, ap, ◌∙◌, Bool, true, false, Option, none, some, [], ◌∷◌, ◌++◌, Bytes, bytes_eq,
  codes, ◌==◌, ==_iff, drop, length, if◌then◌else◌, Bool-cases, inl, inr,
}
use adsb_feed.Feed.Monitor.{starts_with}
use adsb_feed.Storage.Sharing.{
  quote_mark, sql_quote, literal, ShareConfig, token_arg, host_arg, serve_args,
}

abbrev prepend : ℕ → Option (Bytes × Bytes) → Option (Bytes × Bytes)
prepend c none = none
prepend c (some p) = some (c ∷ p.0, p.1)

-- How SQL reads a literal, behind its opening mark: two marks are one, and one ends it.  The test tells
-- whether a mark has just been read.
abbrev pub scan : Bool → Bytes → Option (Bytes × Bytes)
scan false [] = none
scan true [] = some ([], [])
scan false (c ∷ cs) =
    let marked = scan true cs in
    let plain = prepend c (scan false cs) in if c == quote_mark then marked else plain
scan true (c ∷ cs) =
    let doubled = prepend quote_mark (scan false cs) in
    if c == quote_mark then doubled else some ([], c ∷ cs)

abbrev pub read_literal : Bytes → Option (Bytes × Bytes)
read_literal [] = none
read_literal (c ∷ cs) = if c == quote_mark then scan false cs else none

-- What may follow a literal: not another mark.
abbrev Ends : Bytes → Type 0
Ends [] = Unit
Ends (c ∷ cs) = (c == quote_mark) ≡ false

scan-sql_quote :
    (value rest : Bytes)
    → Ends rest
    → scan false (sql_quote value ++ quote_mark ∷ rest) ≡ some (value, rest)
unfolding sql_quote
scan-sql_quote [] [] h = refl
scan-sql_quote [] (c ∷ rest) h = rw h refl
scan-sql_quote (c ∷ value) rest h = elim (Bool-cases (c == quote_mark)) [
  | inl e ↦
      let same = (==_iff c quote_mark).0 e in
      rw e (rw (scan-sql_quote value rest h) (ap (λ d. some (d ∷ value, rest)) (sym same)))
  | inr e ↦ rw (e, scan-sql_quote value rest h, e) refl
]

read_literal-literal :
    (value rest : Bytes) → Ends rest → read_literal (literal value ++ rest) ≡ some (value, rest)
read_literal-literal value rest h =
    ap (scan false) (append_assoc (sql_quote value) (quote_mark ∷ []) rest)
    ∙ scan-sql_quote value rest h

-- Reading the arguments of `quack_serve` back, as SQL does: the URI, then the token if one is named, then
-- whether other hosts are allowed.
abbrev read_host : Bytes → Option Bool
read_host [] = some false
read_host (c ∷ cs) =
    if bytes_eq (c ∷ cs) (codes ", allow_other_hostname := true") then some true else none

abbrev read_token : Bytes → Option (Option Bytes × Bytes)
read_token rest =
    let token = codes ", token := " in
    if starts_with token rest
    then Option.map (λ p. (some p.0, p.1)) (read_literal (drop (length token) rest))
    else some (none, rest)

abbrev with_host : Bytes → Option Bytes → Option Bool → Option (Bytes × Option Bytes × Bool)
with_host uri token none = none
with_host uri token (some allow) = some (uri, token, allow)

abbrev with_token : Bytes → Option (Option Bytes × Bytes) → Option (Bytes × Option Bytes × Bool)
with_token uri none = none
with_token uri (some p) = with_host uri p.0 (read_host p.1)

abbrev with_uri : Option (Bytes × Bytes) → Option (Bytes × Option Bytes × Bool)
with_uri none = none
with_uri (some p) = with_token p.0 (read_token p.1)

abbrev pub read_args : Bytes → Option (Bytes × Option Bytes × Bool)
read_args args = with_uri (read_literal args)

host_arg-Ends : (allow : Bool) → Ends (host_arg allow)
unfolding host_arg
host_arg-Ends true = refl
host_arg-Ends false = tt

args-Ends : (token : Option Bytes) (allow : Bool) → Ends (token_arg token ++ host_arg allow)
unfolding token_arg
args-Ends none allow = host_arg-Ends allow
args-Ends (some token) allow = refl

read_host_arg : (allow : Bool) → read_host (host_arg allow) ≡ some allow
unfolding host_arg bytes_eq
read_host_arg true = refl
read_host_arg false = refl

read_token_arg :
    (token : Option Bytes) (allow : Bool)
    → read_token (token_arg token ++ host_arg allow) ≡ some (token, host_arg allow)
unfolding token_arg host_arg starts_with
read_token_arg none true = refl
read_token_arg none false = refl
read_token_arg (some token) allow =
    ap (Option.map (λ p. (some p.0, p.1)))
      (read_literal-literal token (host_arg allow) (host_arg-Ends allow))

-- Whatever the configured URI and token are, quotation marks included, SQL reads the arguments of the
-- statement that starts the server as exactly that URI, that token and that permission: no text of the
-- configuration ends its literal early.
pub read_args-serve_args :
    (cfg : ShareConfig)
    → read_args (serve_args cfg) ≡ some (cfg.uri, cfg.token, cfg.allow_other_hostname)
unfolding serve_args
read_args-serve_args cfg =
    let rest = token_arg cfg.token ++ host_arg cfg.allow_other_hostname in
    ap with_uri (read_literal-literal cfg.uri rest (args-Ends cfg.token cfg.allow_other_hostname))
    ∙ ap (with_token cfg.uri) (read_token_arg cfg.token cfg.allow_other_hostname)
    ∙ ap (with_host cfg.uri cfg.token) (read_host_arg cfg.allow_other_hostname)
