-- ===== src/Ssh/Tests.antt =====
-- A remote with settings of its own, and the same remote before it is enabled.
use enthrall.Prelude.{
  ◌≡◌, ◌<◌, refl, Text, codes, Bool, true, false, none, some, List, [], ◌∷◌, length,
}
use enthrall.Prelude.Int.{ℤ, pos, negsuc}
use enthrall.Ssh.{
  SshConfig, lf_file, SshHost, SshRemote, loads, argv_size, remote_shell_argv, load_id,
  ssh_pubkey_setup,
}
use enthrall.Ssh.Reading.{nothing_read, read_args}
use enthrall.Ssh.Args.{tail, meant, read-remote_shell_argv}
use enthrall.Ssh.Args.{length-remote_shell_argv}

abbrev defaults : SshConfig
defaults = record {
  remoteshell = none;
  port = pos 0;
  bindaddr = none;
  identityfile = some (codes "id");
  username = some (codes "u");
  remotecmd = none;
}

abbrev number : ℤ → Text
number (pos n) = (48 ∷ n ∷ [])
number (negsuc n) = (45 ∷ n ∷ [])

abbrev host : SshHost
host = record {
  ssh_defaults = defaults;
  loglevel = 2;
  logfile = lf_file (codes "log");
  progname = codes "enthrall";
  decimal = number;
}

abbrev remote_with : Bool → SshRemote
remote_with enabled = record {
  hostname = codes "host";
  sshcfg = record defaults { port = pos 22; identityfile = some (codes "id2"); username = none };
  enabled = enabled;
}

-- Every option but the address.
arguments :
    remote_shell_argv host (remote_with true)
    ≡ codes "ssh"
      ∷ codes "-oBatchMode=yes"
      ∷ codes "-oServerAliveInterval=2"
      ∷ codes "-oServerAliveCountMax=3"
      ∷ codes "-oConnectTimeout=2"
      ∷ codes "-q"
      ∷ codes "-E"
      ∷ codes "log"
      ∷ codes "-p"
      ∷ (48 ∷ 22 ∷ [])
      ∷ codes "-oIdentitiesOnly=yes"
      ∷ codes "-i"
      ∷ codes "id2"
      ∷ codes "-l"
      ∷ codes "u"
      ∷ codes "host"
      ∷ codes "enthrall"
      ∷ []
unfolding remote_shell_argv
arguments = refl

read-remote_shell_argv_example :
    read_args none (tail (remote_shell_argv host (remote_with true))) nothing_read
    ≡ meant host (remote_with true)
read-remote_shell_argv_example = read-remote_shell_argv host (remote_with true) refl

length-remote_shell_argv_example : length (remote_shell_argv host (remote_with true)) < argv_size
length-remote_shell_argv_example = length-remote_shell_argv host (remote_with true)

abbrev takes_any : Text → Bool
takes_any key = true

abbrev agent : List Text
agent = codes "id" ∷ []

both_loaded :
    ssh_pubkey_setup takes_any true true false defaults (remote_with true ∷ []) (some agent)
    ≡ loads (codes "id" ∷ codes "id2" ∷ []) false
unfolding ssh_pubkey_setup load_id
both_loaded = refl
