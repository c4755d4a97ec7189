-- ===== src/Installer/Request/Begun.antt =====
-- A plan from the message of a client to the start of its installation
-- (src/services/installer/installer_service.cpp).
use jappeos_core.Prelude.{ℕ, ◌≤◌, ◌≡◌, sym, ap, ◌∙◌, Bool, List, ◌∷◌, Bytes, ok, err, ◌>>=◌}
use jappeos_core.Installer.Exception.{unknown_plan, fail_with}
use jappeos_core.Installer.Data.{InstallData}
use jappeos_core.Installer.Storage.Validate.{Warning}
use jappeos_core.Installer.Plan.{running, Installer, on_begin_installation, on_create_install_plan}
use jappeos_core.Installer.Plan.Laws.{create-begin}
use jappeos_core.Installer.Request.{create_install_plan}
use jappeos_core.Installer.Request.Wire.{IsMode, encode_plan, decode-encode_plan}

-- When the service accepts the plan that a client writes into a message under the documented keys,
-- with a mode of the enumerators, and answers with its number, which is not 0: beginning the number
-- starts the installation of exactly the data that the client wrote, once.
pub create-begin_requested :
    (getpwnam : Bytes → Bool) (fresh : ℕ) (d : InstallData) (s s' : Installer) (ws : List Warning)
    → IsMode d.disk.mode
    → 1 ≤ fresh
    → create_install_plan getpwnam fresh (encode_plan d) s ≡ ok (s', (fresh, ws))
    → (s'' : Installer) × (on_begin_installation fresh s' ≡ ok s'')
      × (s''.started ≡ d ∷ s.started)
      × (s''.controller ≡ running)
      × (on_begin_installation fresh s'' ≡ err (fail_with unknown_plan))
unfolding create_install_plan
create-begin_requested getpwnam fresh d s s' ws mode h e =
    let read =
      ap (λ r. r >>= (λ x. on_create_install_plan getpwnam fresh x s))
        (sym (decode-encode_plan d mode)) in
    create-begin getpwnam fresh d s s' ws h (read ∙ e)
