-- ===== src/Ssh.antt =====
-- main.c: the arguments of the remote shell, and the keys that are loaded into the ssh-agent.
pub mod Reading
pub mod Args
pub mod Keys
pub mod Starting
mod Tests
use enthrall.Prelude.{
  ℕ, ◌+◌, ◌==◌, ltb, Text, codes, str_eq, Bool, true, false, not, ◌&&◌, ◌||◌, Option, none, some,
  List, [], ◌∷◌, ◌++◌, if◌then◌else◌,
}
use enthrall.Prelude.Int.{ℤ, pos, negsuc}

-- A null string is `none`.
pub record SshConfig : Type 0 where
  pub remoteshell : Option Text
  pub port : ℤ
  pub bindaddr : Option Text
  pub identityfile : Option Text
  pub username : Option Text
  pub remotecmd : Option Text

-- `struct logfile`
pub data Logfile : Type 0 where
  lf_stderr : Logfile
  lf_file : (path : Text) → Logfile
  lf_syslog lf_none : Logfile

-- What exec_remote_shell reads of the configuration; `decimal` is "%d" of printf(3).
pub record SshHost : Type 0 where
  pub ssh_defaults : SshConfig
  pub loglevel : ℕ
  pub logfile : Logfile
  pub progname : Text
  pub decimal : ℤ → Text

-- What it reads of a remote.
pub record SshRemote : Type 0 where
  pub hostname : Text
  pub sshcfg : SshConfig
  pub enabled : Bool

-- `SSH_DEFAULT` for a string.
abbrev pub overriding : Option Text → Option Text → Option Text
overriding (some t) default = some t
overriding none default = default

abbrev pub is_nonzero : ℤ → Bool
is_nonzero (pos n) = not (n == 0)
is_nonzero (negsuc n) = true

-- `SSH_DEFAULT` for the port.
abbrev pub overriding_port : ℤ → ℤ → ℤ
overriding_port p default = if is_nonzero p then p else default

abbrev pub ll_warn : ℕ
ll_warn = 3

abbrev pub quiet_args : ℕ → List Text
quiet_args level = if ltb level ll_warn then codes "-q" ∷ [] else []

abbrev pub log_args : Logfile → List Text
log_args lf_stderr = []
log_args (lf_file path) = codes "-E" ∷ path ∷ []
log_args lf_syslog = codes "-E" ∷ codes "/dev/null" ∷ []
log_args lf_none = codes "-E" ∷ codes "/dev/null" ∷ []

abbrev pub port_args : (ℤ → Text) → ℤ → List Text
port_args decimal p = if is_nonzero p then codes "-p" ∷ decimal p ∷ [] else []

-- Each option with its value, where there is one.
abbrev pub bind_args : Option Text → List Text
bind_args none = []
bind_args (some addr) = codes "-b" ∷ addr ∷ []

abbrev pub identity_args : Option Text → List Text
identity_args none = []
identity_args (some file) = codes "-oIdentitiesOnly=yes" ∷ codes "-i" ∷ file ∷ []

abbrev pub user_args : Option Text → List Text
user_args none = []
user_args (some name) = codes "-l" ∷ name ∷ []

abbrev pub or_text : Option Text → Text → Text
or_text none t = t
or_text (some s) t = s

abbrev pub first_args : List Text
first_args =
    codes "-oBatchMode=yes"
    ∷ codes "-oServerAliveInterval=2"
    ∷ codes "-oServerAliveCountMax=3"
    ∷ codes "-oConnectTimeout=2"
    ∷ []

-- The five strings, the fourteen places and the terminator that `argv` is declared with.
abbrev pub argv_size : ℕ
argv_size = 5 + 14 + 1

-- `argv` as execvp(3) is given it, without the terminator.
unfoldable pub remote_shell_argv : SshHost → SshRemote → List Text
remote_shell_argv h r =
    let c = r.sshcfg in
    let d = h.ssh_defaults in
    or_text (overriding c.remoteshell d.remoteshell) (codes "ssh")
    ∷ (first_args
        ++ (quiet_args h.loglevel
            ++ (log_args h.logfile
                ++ (port_args h.decimal (overriding_port c.port d.port)
                    ++ (bind_args (overriding c.bindaddr d.bindaddr)
                        ++ (identity_args (overriding c.identityfile d.identityfile)
                            ++ (user_args (overriding c.username d.username)
                                ++ (r.hostname
                                    ∷ or_text (overriding c.remotecmd d.remotecmd) h.progname
                                    ∷ []))))))))

-- What ssh_pubkey_setup ends in: the exit of `initdie`, the program executed again under an ssh-agent, or
-- the list of the loaded keys, and whether `ssh-add` was run for the default keys.
pub data KeySetup : Type 0 where
  dies reexecs : KeySetup
  loads : (keys : List Text) → (ran_ssh_add : Bool) → KeySetup

-- The loop over the list of keys.
abbrev pub is_loaded : Text → List Text → Bool
is_loaded keyfile [] = false
is_loaded keyfile (key ∷ keys) = str_eq keyfile key || is_loaded keyfile keys

-- `ssh_add` says whether ssh-add(1) takes the key; `none` is the exit of `initdie`.
unfoldable pub load_id : (Text → Bool) → Text → List Text → Option (List Text)
load_id ssh_add keyfile keylist =
    if is_loaded keyfile keylist
    then some keylist
    else if ssh_add keyfile
    then some (keylist ++ (keyfile ∷ []))
    else none

abbrev pub load_if_set : (Text → Bool) → Option Text → Option (List Text) → Option (List Text)
load_if_set ssh_add o none = none
load_if_set ssh_add none (some keys) = some keys
load_if_set ssh_add (some keyfile) (some keys) = load_id ssh_add keyfile keys

-- The loop over the enabled remotes.
abbrev pub load_each : (Text → Bool) → List SshRemote → Option (List Text) → Option (List Text)
load_each ssh_add [] keys = keys
load_each ssh_add (r ∷ rest) keys =
    load_each ssh_add rest
      (if r.enabled then load_if_set ssh_add r.sshcfg.identityfile keys else keys)

-- The end: the default keys, where no key is loaded.
abbrev pub add_default : Bool → Option (List Text) → KeySetup
add_default default_ok none = dies
add_default default_ok (some []) = if default_ok then loads [] true else dies
add_default default_ok (some (key ∷ keys)) = loads (key ∷ keys) false

-- With the list of keys at hand.
abbrev pub setup_keys : (Text → Bool) → Bool → SshConfig → List SshRemote → List Text → KeySetup
setup_keys ssh_add default_ok defaults remotes keys =
    add_default default_ok
      (load_each ssh_add remotes (load_if_set ssh_add defaults.identityfile (some keys)))

-- `agentkeys` is what get_agent_keylist returns, a null pointer as `none`.
unfoldable pub ssh_pubkey_setup :
    (ssh_add : Text → Bool) (default_ok under_private_agent use_private_ssh_agent : Bool)
    → SshConfig
    → List SshRemote
    → Option (List Text)
    → KeySetup
ssh_pubkey_setup ssh_add default_ok true use_private defaults remotes none = dies
ssh_pubkey_setup ssh_add default_ok false use_private defaults remotes none = reexecs
ssh_pubkey_setup ssh_add default_ok true use_private defaults remotes (some keys) =
    setup_keys ssh_add default_ok defaults remotes keys
ssh_pubkey_setup ssh_add default_ok false true defaults remotes (some keys) = reexecs
ssh_pubkey_setup ssh_add default_ok false false defaults remotes (some keys) =
    setup_keys ssh_add default_ok defaults remotes keys
