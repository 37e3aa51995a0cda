-- ===== src/Server/Ftp.antt =====
-- pkg/server/ftp_server.go: recordInteraction, and the notifications that the FTP library sends
-- before and after each command, with its driver and its authentication. The library calls them;
-- the context that it passes is a record.
pub mod Setup
use interactsh.Prelude.{ℕ, Bool, true, Option, List, [], ◌++◌, if◌then◌else◌, Text, codes, is_empty}
use interactsh.Storage.Isolation.Steps.{Call, adds_with_id}
use interactsh.Server.Options.{ServerOptions, Utilities, no_interaction, Metrics, bump}
use interactsh.Server.Dns.Serve.{call_of}

pub record FtpContext : Type 0 where
  pub cmd : Text
  pub param : Text
  pub remote_address : Text

-- The methods of the notifier, with the arguments that they print.
pub data Notice : Type 0 where
  before_login_user before_put_file before_delete_file : Text → Notice
  before_change_cur_dir : Text → Text → Notice
  before_create_dir before_delete_dir before_download_file : Text → Notice
  after_user_login : Text → Text → Notice
  after_file_put after_file_deleted after_file_downloaded : Text → Notice
  after_cur_dir_changed : Text → Text → Notice
  after_dir_created after_dir_deleted : Text → Notice

-- The last line that a method writes.
unfoldable pub notice_text : Notice → Text
notice_text (before_login_user name) = name ++ codes " logging in"
notice_text (before_put_file path) = codes "uploading " ++ path
notice_text (before_delete_file path) = codes "deleting " ++ path
notice_text (before_change_cur_dir old new) =
    codes "changing directory from " ++ (old ++ (codes " to " ++ new))
notice_text (before_create_dir path) = codes "creating directory " ++ path
notice_text (before_delete_dir path) = codes "deleting directory " ++ path
notice_text (before_download_file path) = codes "downloading file " ++ path
notice_text (after_user_login name password) =
    codes "user " ++ (name ++ (codes " logged in with password " ++ password))
notice_text (after_file_put path) = codes "uploaded " ++ path
notice_text (after_file_deleted path) = codes "deleted " ++ path
notice_text (after_file_downloaded path) = codes "downloaded file " ++ path
notice_text (after_cur_dir_changed old new) =
    codes "changed directory from " ++ (old ++ (codes " to " ++ new))
notice_text (after_dir_created path) = codes "created directory " ++ path
notice_text (after_dir_deleted path) = codes "delete directory " ++ path

-- What a method writes into its builder.
unfoldable pub notice_data : FtpContext → Notice → Text
unfolding notice_text
notice_data ctx n = ctx.cmd ++ (codes " " ++ (ctx.param ++ (codes "\n" ++ notice_text n)))

module _ (u : Utilities) (options : ServerOptions) where
  -- recordInteraction
  unfoldable pub record_interaction : Text → Text → ℕ → Metrics → Metrics × List Call
  unfolding bump call_of
  record_interaction remote_address content now stats = (
    record stats { ftp = bump stats.ftp },
    if is_empty content
        then []
        else call_of
            (u.marshal (record no_interaction {
              remote_address = remote_address;
              protocol = codes "ftp";
              raw_request = content;
              timestamp = now;
            }))
            (adds_with_id options.token),
  )

  unfoldable pub notify : FtpContext → Notice → ℕ → Metrics → Metrics × List Call
  unfolding notice_data record_interaction
  notify ctx n now stats = record_interaction ctx.remote_address (notice_data ctx n) now stats

-- The parts of a driver of the FTP library that NopDriver has, over the files that it keeps. An
-- operation says whether it succeeds.
pub record Driver (Files : Type 0) : Type 0 where
  pub stat : Text → Files → Option Text
  pub list_dir : Text → Files → Option (List Text)
  pub get_file : Text → ℕ → Files → Option Text
  pub put_file : Text → Text → ℕ → Files → Bool × Files
  pub delete_dir : Text → Files → Bool × Files
  pub delete_file : Text → Files → Bool × Files
  pub rename : Text → Text → Files → Bool × Files
  pub make_dir : Text → Files → Bool × Files

-- NopDriver: what reads is the driver's own, and what would write succeeds and does nothing.
unfoldable pub nop_driver : {Files : Type 0} → Driver Files → Driver Files
nop_driver driver = record driver {
  put_file = λ path content offset files. (true, files);
  delete_dir = λ path files. (true, files);
  delete_file = λ path files. (true, files);
  rename = λ from to files. (true, files);
  make_dir = λ path files. (true, files);
}

-- NopAuth.CheckPasswd: every password is right.
unfoldable pub check_passwd : Text → Text → Bool
check_passwd name pass = true
