-- ===== src/Ssh/Args.antt =====
-- main.c: the remote shell reads its arguments back as they were meant, and they fit into `argv`.
use enthrall.Prelude.{
  ℕ, zero, suc, ◌<◌, ◌≤◌, ◌≡◌, refl, ap, ◌∙◌, ltb, Text, codes, Bool, true, false, Option, none,
  some, List, [], ◌∷◌, ◌++◌, length, if◌then◌else◌, arith, length-append,
}
use enthrall.Prelude.Int.{ℤ, pos, negsuc}
use enthrall.Ssh.{
  Logfile, lf_stderr, lf_file, lf_syslog, lf_none, SshHost, SshRemote, overriding, overriding_port,
  is_nonzero, ll_warn, quiet_args, log_args, port_args, bind_args, identity_args, user_args,
  or_text, argv_size, remote_shell_argv,
}
use enthrall.Ssh.Reading.{
  takes, alone, operand, kind_of, starts_dash, Reads, nothing_read, read_args,
}

-- What a log file is read as.
abbrev pub logged : Logfile → Option Text
logged lf_stderr = none
logged (lf_file path) = some path
logged lf_syslog = some (codes "/dev/null")
logged lf_none = some (codes "/dev/null")

-- A setting of the remote, else the default; a port that is 0 is none. These say what is meant, not how
-- the program comes to it.
abbrev pub own_or_default : (own default : Option Text) → Option Text
own_or_default none none = none
own_or_default none (some t) = some t
own_or_default (some t) default = some t

abbrev pub port_meant : (ℤ → Text) → (own default : ℤ) → Option Text
port_meant decimal (pos zero) (pos zero) = none
port_meant decimal (pos zero) (pos (suc n)) = some (decimal (pos (suc n)))
port_meant decimal (pos zero) (negsuc n) = some (decimal (negsuc n))
port_meant decimal (pos (suc n)) default = some (decimal (pos (suc n)))
port_meant decimal (negsuc n) default = some (decimal (negsuc n))

abbrev pub command_meant : (own default : Option Text) (progname : Text) → Text
command_meant none none progname = progname
command_meant none (some t) progname = t
command_meant (some t) default progname = t

overriding_lem : (o d : Option Text) → overriding o d ≡ own_or_default o d
overriding_lem none none = refl
overriding_lem none (some t) = refl
overriding_lem (some t) d = refl

command_lem : (o d : Option Text) (t : Text) → or_text (overriding o d) t ≡ command_meant o d t
command_lem none none t = refl
command_lem none (some u) t = refl
command_lem (some u) d t = refl

abbrev shown_port : (ℤ → Text) → ℤ → Option Text
shown_port decimal p = if is_nonzero p then some (decimal p) else none

suc_nonzero : (n : ℕ) → is_nonzero (pos (suc n)) ≡ true
suc_nonzero n = ground arith

port_lem :
    (decimal : ℤ → Text) (p d : ℤ)
    → shown_port decimal (overriding_port p d) ≡ port_meant decimal p d
port_lem decimal (pos zero) (pos zero) = refl
port_lem decimal (pos zero) (pos (suc n)) = rw (suc_nonzero n) refl
port_lem decimal (pos zero) (negsuc n) = refl
port_lem decimal (pos (suc n)) d = rw (suc_nonzero n) (rw (suc_nonzero n) refl)
port_lem decimal (negsuc n) d = refl

read_quiet :
    (n : ℕ) (rest : List Text) (r : Reads)
    → read_args none (quiet_args n ++ rest) r ≡ read_args none rest r
read_quiet n rest r = by_test (ltb n ll_warn)
  where
    by_test :
        (b : Bool)
        → read_args none ((if b then codes "-q" ∷ [] else []) ++ rest) r ≡ read_args none rest r
    by_test true = refl
    by_test false = refl

read_log :
    (f : Logfile) (rest : List Text) (r : Reads)
    → read_args none (log_args f ++ rest) (record r { log = none })
      ≡ read_args none rest (record r { log = logged f })
read_log lf_stderr rest r = refl
read_log (lf_file path) rest r = refl
read_log lf_syslog rest r = refl
read_log lf_none rest r = refl

read_port :
    (decimal : ℤ → Text) (p : ℤ) (rest : List Text) (r : Reads)
    → read_args none (port_args decimal p ++ rest) (record r { port = none })
      ≡ read_args none rest (record r { port = shown_port decimal p })
read_port decimal p rest r = by_test (is_nonzero p)
  where
    by_test :
        (b : Bool)
        → read_args none
            ((if b then codes "-p" ∷ decimal p ∷ [] else []) ++ rest)
            (record r { port = none })
          ≡ read_args none rest (record r { port = if b then some (decimal p) else none })
    by_test true = refl
    by_test false = refl

read_bind :
    (o : Option Text) (rest : List Text) (r : Reads)
    → read_args none (bind_args o ++ rest) (record r { bind = none })
      ≡ read_args none rest (record r { bind = o })
read_bind none rest r = refl
read_bind (some v) rest r = refl

read_identity :
    (o : Option Text) (rest : List Text) (r : Reads)
    → read_args none (identity_args o ++ rest) (record r { identity = none })
      ≡ read_args none rest (record r { identity = o })
read_identity none rest r = refl
read_identity (some v) rest r = refl

read_user :
    (o : Option Text) (rest : List Text) (r : Reads)
    → read_args none (user_args o ++ rest) (record r { user = none })
      ≡ read_args none rest (record r { user = o })
read_user none rest r = refl
read_user (some v) rest r = refl

kind_of_operand : (host : Text) → starts_dash host ≡ false → kind_of host ≡ operand
kind_of_operand host e = rw e refl

read_operands :
    (host command : Text) (r : Reads)
    → starts_dash host ≡ false
    → read_args none (host ∷ command ∷ []) r ≡ record r { host = some host; command = command ∷ [] }
read_operands host command r e =
    ap
      (λ k. elim k [
        | takes f ↦ read_args (some f) (command ∷ []) r
        | alone ↦ read_args none (command ∷ []) r
        | operand ↦ record r { host = some host; command = command ∷ [] }
      ])
      (kind_of_operand host e)

-- What ssh(1) is meant to read.
abbrev pub meant : SshHost → SshRemote → Reads
meant h r =
    let c = r.sshcfg in
    let d = h.ssh_defaults in
    record {
      log = logged h.logfile;
      port = port_meant h.decimal c.port d.port;
      bind = own_or_default c.bindaddr d.bindaddr;
      identity = own_or_default c.identityfile d.identityfile;
      user = own_or_default c.username d.username;
      host = some r.hostname;
      command = command_meant c.remotecmd d.remotecmd h.progname ∷ [];
    }

-- The program that is run, and its arguments.
abbrev pub tail : List Text → List Text
tail [] = []
tail (a ∷ args) = args

-- Where the remote's name does not begin with a dash, ssh(1) reads the arguments as the configuration
-- means them: each option from the remote's own settings, else from the defaults, else not at all, then
-- the host, then the command, which is the program's own name where none is set.
pub read-remote_shell_argv :
    (h : SshHost) (r : SshRemote)
    → starts_dash r.hostname ≡ false
    → read_args none (tail (remote_shell_argv h r)) nothing_read ≡ meant h r
unfolding remote_shell_argv
read-remote_shell_argv h r e =
    let c = r.sshcfg in
    let d = h.ssh_defaults in
    let r1 = record nothing_read { log = logged h.logfile } in
    let r2 = record r1 { port = shown_port h.decimal (overriding_port c.port d.port) } in
    let r3 = record r2 { bind = overriding c.bindaddr d.bindaddr } in
    let r4 = record r3 { identity = overriding c.identityfile d.identityfile } in
    let r5 = record r4 { user = overriding c.username d.username } in
    read_quiet h.loglevel _ nothing_read
    ∙ read_log h.logfile _ nothing_read
    ∙ read_port h.decimal (overriding_port c.port d.port) _ r1
    ∙ read_bind (overriding c.bindaddr d.bindaddr) _ r2
    ∙ read_identity (overriding c.identityfile d.identityfile) _ r3
    ∙ read_user (overriding c.username d.username) _ r4
    ∙ read_operands r.hostname (or_text (overriding c.remotecmd d.remotecmd) h.progname) r5 e
    ∙ (λ k. record {
      log = logged h.logfile;
      port = port_lem h.decimal c.port d.port k;
      bind = overriding_lem c.bindaddr d.bindaddr k;
      identity = overriding_lem c.identityfile d.identityfile k;
      user = overriding_lem c.username d.username k;
      host = some r.hostname;
      command = command_lem c.remotecmd d.remotecmd h.progname k ∷ [];
    })

quiet_bound : (n : ℕ) → length (quiet_args n) ≤ 1
quiet_bound n = by_test (ltb n ll_warn)
  where
    by_test : (b : Bool) → length (if b then codes "-q" ∷ [] else []) ≤ 1
    by_test true = omega arith
    by_test false = omega arith

log_bound : (f : Logfile) → length (log_args f) ≤ 2
log_bound lf_stderr = omega arith
log_bound (lf_file path) = omega arith
log_bound lf_syslog = omega arith
log_bound lf_none = omega arith

port_bound : (decimal : ℤ → Text) (p : ℤ) → length (port_args decimal p) ≤ 2
port_bound decimal p = by_test (is_nonzero p)
  where
    by_test : (b : Bool) → length (if b then codes "-p" ∷ decimal p ∷ [] else []) ≤ 2
    by_test true = omega arith
    by_test false = omega arith

bind_bound : (o : Option Text) → length (bind_args o) ≤ 2
bind_bound none = omega arith
bind_bound (some v) = omega arith

identity_bound : (o : Option Text) → length (identity_args o) ≤ 3
identity_bound none = omega arith
identity_bound (some v) = omega arith

user_bound : (o : Option Text) → length (user_args o) ≤ 2
user_bound none = omega arith
user_bound (some v) = omega arith

-- With every option set there is still a place for the terminator, so the assertion of exec_remote_shell
-- never fails.
pub length-remote_shell_argv :
    (h : SshHost) (r : SshRemote) → length (remote_shell_argv h r) < argv_size
unfolding remote_shell_argv
length-remote_shell_argv h r =
    let c = r.sshcfg in
    let d = h.ssh_defaults in
    simp length-append (
      omega (
        arith,
        quiet_bound h.loglevel,
        log_bound h.logfile,
        port_bound h.decimal (overriding_port c.port d.port),
        bind_bound (overriding c.bindaddr d.bindaddr),
        identity_bound (overriding c.identityfile d.identityfile),
        user_bound (overriding c.username d.username),
      ))
