-- ===== src/Server/Config.antt =====
-- crates/nexide/src/server/config.rs: the validated configuration. Whether a path is a directory is
-- asked of the operating system, a parameter.
use nexide.Prelude.{◌≡◌, refl, Bool, true, false, not, if◌then◌else◌, if-elim, arith}
use nexide.Prelude.Results.{Result, ok, err}
use nexide.Prelude.Text.{Text}
use nexide.Cjs.Paths.{is_absolute}

pub data ConfigError : Type 0 where
  public_dir_missing : Text → ConfigError
  next_static_dir_missing : Text → ConfigError
  app_dir_missing : Text → ConfigError
  public_dir_relative : Text → ConfigError
  next_static_dir_relative : Text → ConfigError
  app_dir_relative : Text → ConfigError

pub record ServerConfig (SocketAddr : Type 0) : Type 0 where
  pub bind : SocketAddr
  pub public_dir : Text
  pub next_static_dir : Text
  pub app_dir : Text

-- A path that is not absolute, or no directory: the first of the tests of `try_new` to fail.
pub data IsRejected (is_dir : Text → Bool) (public_dir static_dir app_dir : Text)
    : ConfigError → Type 0 where
  public_relative :
      is_absolute public_dir ≡ false
      → IsRejected is_dir public_dir static_dir app_dir (public_dir_relative public_dir)
  static_relative :
      is_absolute public_dir ≡ true
      → is_absolute static_dir ≡ false
      → IsRejected is_dir public_dir static_dir app_dir (next_static_dir_relative static_dir)
  app_relative :
      is_absolute public_dir ≡ true
      → is_absolute static_dir ≡ true
      → is_absolute app_dir ≡ false
      → IsRejected is_dir public_dir static_dir app_dir (app_dir_relative app_dir)
  static_missing :
      is_absolute app_dir ≡ true
      → is_dir static_dir ≡ false
      → IsRejected is_dir public_dir static_dir app_dir (next_static_dir_missing static_dir)
  app_missing :
      is_dir static_dir ≡ true
      → is_dir app_dir ≡ false
      → IsRejected is_dir public_dir static_dir app_dir (app_dir_missing app_dir)

-- What holds of an accepted configuration.
pub record IsAccepted {SocketAddr : Type 0} (is_dir : Text → Bool) (cfg : ServerConfig SocketAddr)
    : Type 0 where
  pub public_absolute : is_absolute cfg.public_dir ≡ true
  pub static_absolute : is_absolute cfg.next_static_dir ≡ true
  pub app_absolute : is_absolute cfg.app_dir ≡ true
  pub static_dir : is_dir cfg.next_static_dir ≡ true
  pub app_dir : is_dir cfg.app_dir ≡ true

module _ {SocketAddr : Type 0} (is_dir : Text → Bool) where
  -- `ServerConfig::try_new`
  unfoldable pub try_new :
      SocketAddr → Text → Text → Text → Result ConfigError (ServerConfig SocketAddr)
  unfolding is_absolute
  try_new bind public_dir static_dir app_dir =
      if not (is_absolute public_dir)
      then err (public_dir_relative public_dir)
      else if not (is_absolute static_dir)
      then err (next_static_dir_relative static_dir)
      else if not (is_absolute app_dir)
      then err (app_dir_relative app_dir)
      else if not (is_dir static_dir)
      then err (next_static_dir_missing static_dir)
      else if not (is_dir app_dir)
      then err (app_dir_missing app_dir)
      else ok (record {
        bind = bind;
        public_dir = public_dir;
        next_static_dir = static_dir;
        app_dir = app_dir;
      })

  -- The configuration of an outcome, or the reason why there is none.
  unfoldable pub IsVerdict :
      SocketAddr → Text → Text → Text → Result ConfigError (ServerConfig SocketAddr) → Type 0
  IsVerdict bind public_dir static_dir app_dir (ok cfg) =
      (cfg.bind ≡ bind)
      × (cfg.public_dir ≡ public_dir)
      × (cfg.next_static_dir ≡ static_dir)
      × (cfg.app_dir ≡ app_dir)
      × IsAccepted is_dir cfg
  IsVerdict bind public_dir static_dir app_dir (err e) =
      IsRejected is_dir public_dir static_dir app_dir e

  -- `try_new` accepts exactly its arguments, with three absolute paths and directories for the static
  -- files and the app, or rejects them with an error that names the first path to fail: one that is
  -- not absolute, or else one of those two that is no directory. The public directory need not exist.
  pub try_new-IsVerdict :
      (bind : SocketAddr) (public_dir static_dir app_dir : Text)
      → IsVerdict bind public_dir static_dir app_dir (try_new bind public_dir static_dir app_dir)
  unfolding try_new IsVerdict
  try_new-IsVerdict bind p s a =
      let V = IsVerdict bind p s a in
      if-elim V (not (is_absolute p)) (λ t. public_relative (ground arith))
        (λ hp.
          if-elim V (not (is_absolute s)) (λ t. static_relative (ground arith) (ground arith))
            (λ hs.
              if-elim V (not (is_absolute a))
                (λ t. app_relative (ground arith) (ground arith) (ground arith))
                (λ ha.
                  if-elim V (not (is_dir s)) (λ t. static_missing (ground arith) (ground arith))
                    (λ ds.
                      if-elim V (not (is_dir a)) (λ t. app_missing (ground arith) (ground arith))
                        (λ da. (
                          refl,
                          refl,
                          refl,
                          refl,
                          record {
                            public_absolute = ground arith;
                            static_absolute = ground arith;
                            app_absolute = ground arith;
                            static_dir = ground arith;
                            app_dir = ground arith;
                          },
                        ))))))
