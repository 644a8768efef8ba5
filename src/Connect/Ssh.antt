-- ===== src/Connect/Ssh.antt =====
-- The processes that cmd/connect/connect.go starts: `ssh-keygen`, the probe and the final ssh.
use lanmon.Prelude.{
  ◌≡◌, List, [], ◌∷◌, ◌++◌, Bytes, Text, codes, Option, none, some, text_eq, if◌then◌else◌,
}
use lanmon.Push.Run.{private_path}

-- `fmt.Sprintf("%s@%s", user, host)`
unfoldable pub target : Text → Text → Text
target user host = user ++ b'@' ∷ host

-- The arguments of `canSSHWithoutPassword`, the name of the program first.
unfoldable pub probe_args : Text → Text → List Text
unfolding target
probe_args user host =
    codes "ssh"
    ∷ codes "-o"
    ∷ codes "BatchMode=yes"
    ∷ codes "-o"
    ∷ codes "StrictHostKeyChecking=no"
    ∷ codes "-o"
    ∷ codes "ConnectTimeout=5"
    ∷ codes "-o"
    ∷ codes "LogLevel=ERROR"
    ∷ target user host
    ∷ codes "exit"
    ∷ []

-- `execSSH`: the process is replaced by the ssh that is found, or waits for one as its child.
pub data Launch : Type 0 where
  replaced : Text → List Text → Launch
  child : List Text → Launch

unfoldable pub exec_ssh : Option Text → Text → Text → Launch
unfolding target
exec_ssh none user host = child (codes "ssh" ∷ target user host ∷ [])
exec_ssh (some binary) user host = replaced binary (codes "ssh" ∷ target user host ∷ [])

-- The arguments of `generateSSHKey`, on the path of the public key.
unfoldable pub keygen_args : Text → List Text
keygen_args pub_path =
    codes "ssh-keygen"
    ∷ codes "-t"
    ∷ codes "rsa"
    ∷ codes "-b"
    ∷ codes "4096"
    ∷ codes "-f"
    ∷ private_path pub_path
    ∷ codes "-N"
    ∷ []
    ∷ []

abbrev pub Files : Type 0
Files = Text → Option Bytes

abbrev pub write_file : Text → Bytes → Files → Files
write_file path bytes files p = if text_eq p path then some bytes else files p

pub record KeyPair : Type 0 where
  pub private_key : Bytes
  pub public_key : Bytes

-- What a program that is started makes of the files, if it exits with 0.
pub record SshKeygen : Type 0 where
  pub made : List Text → Files → Files
  pub pair : KeyPair
  -- `ssh-keygen -f path` writes the private key to the path and the public key to the path with
  -- `.pub` behind it.
  pub writes :
      (path : Text) (files : Files) (p : Text)
      → made
          (codes "ssh-keygen"
            ∷ codes "-t"
            ∷ codes "rsa"
            ∷ codes "-b"
            ∷ codes "4096"
            ∷ codes "-f"
            ∷ path
            ∷ codes "-N"
            ∷ []
            ∷ [])
          files
          p
        ≡ write_file
            (path ++ codes ".pub")
            pair.public_key
            (write_file path pair.private_key files)
            p
