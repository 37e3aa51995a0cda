-- ===== src/Commands/Alive.antt =====
-- The goroutine of main (cmd/interactsh-server/main.go) that reports which services are up.
use interactsh.Prelude.{ℕ, Bool, true, false, if◌then◌else◌, Text, codes}

-- The channels that it selects from.
pub data Service : Type 0 where
  dns_udp dns_tcp http https smtp smtps ftp ftps responder smb ldap : Service

-- The ports of the options.
pub record Ports : Type 0 where
  pub dns_port : ℕ
  pub http_port : ℕ
  pub https_port : ℕ
  pub smtp_port : ℕ
  pub smtps_port : ℕ
  pub ftp_port : ℕ
  pub ftps_port : ℕ
  pub smb_port : ℕ
  pub ldap_port : ℕ

pub record Listening : Type 0 where
  pub service : Text
  pub network : Text
  pub port : ℕ
  pub fatal : Bool

abbrev over_tcp : Text → ℕ → Listening
over_tcp service port = record {
  service = service;
  network = codes "TCP";
  port = port;
  fatal = false;
}

-- The cases of the select statement.
unfoldable pub listening : Ports → Service → Listening
listening p dns_udp = record {
  service = codes "DNS";
  network = codes "UDP";
  port = p.dns_port;
  fatal = true;
}
listening p dns_tcp = over_tcp (codes "DNS") p.dns_port
listening p http = record (over_tcp (codes "HTTP") p.http_port) { fatal = true }
listening p https = over_tcp (codes "HTTPS") p.https_port
listening p smtp = over_tcp (codes "SMTP") p.smtp_port
listening p smtps = over_tcp (codes "SMTPS") p.smtps_port
listening p ftp = over_tcp (codes "FTP") p.ftp_port
listening p ftps = over_tcp (codes "FTPS") p.ftps_port
listening p responder = over_tcp (codes "Responder") 445
listening p smb = over_tcp (codes "SMB") p.smb_port
listening p ldap = over_tcp (codes "LDAP") p.ldap_port

-- What a status makes the program do.
pub data Reaction : Type 0 where
  prints_listening warns_stopped exits_stopped : Reaction

unfoldable pub react : Ports → Service → Bool → Reaction
unfolding listening
react p service status =
    if status
    then prints_listening
    else if (listening p service).fatal
    then exits_stopped
    else warns_stopped
