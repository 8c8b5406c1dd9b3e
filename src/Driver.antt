-- ===== src/Driver.antt =====
-- sys/adfilter/driver.c: start and stop of the driver. What the kernel answers to the three calls
-- of create_device is an input.
pub mod Entry
use adfilter.Prelude.{ℕ, Bool, true, false, if◌then◌else◌}
use adfilter.Pool.{M, pure, ◌>>=◌}
use adfilter.Filter.{Adf}
use adfilter.Config.{Registry, load_cfg, unload_cfg}

-- IoCreateDevice with the object that it makes, tdifw_register_user_device, IoCreateSymbolicLink.
pub record Answers : Type 0 where
  pub created : Bool
  pub object : ℕ
  pub registered : Bool
  pub linked : Bool

-- The driver's data, and what exists in the kernel: the control device and its link.
pub record Driver : Type 0 where
  pub adf : Adf
  pub device_exists : Bool
  pub link_exists : Bool

abbrev made : Answers → Driver → Bool → Bool → Driver
made a d device link = record {
  adf = record d.adf { device = a.object };
  device_exists = device;
  link_exists = link;
}

-- The status is a success or not. Where the registration fails, `status` is still that of
-- IoCreateDevice.
unfoldable pub create_device : Answers → Driver → Bool × Driver
create_device a d =
    if a.created
    then (if a.registered
        then (if a.linked
            then (true, made a d true true)
            else (false, made a d false d.link_exists))
        else (true, made a d false d.link_exists))
    else (false, d)

unfoldable pub delete_device : Driver → Driver
delete_device d = record d { device_exists = false; link_exists = false }

module _ (fuel : ℕ) (passive : Bool) where
  -- What load_cfg answers is overwritten by the next status.
  unfoldable pub tdifw_driver_entry : Registry → Answers → Driver → M (Bool × Driver)
  tdifw_driver_entry reg a d = do
    (_, adf) ← load_cfg fuel passive reg d.adf
    let (status, d') = create_device a (record d { adf = adf })
    elim status [
      | true ↦ pure (true, d')
      | false ↦ do adf' ← unload_cfg d'.adf; pure (false, record d' { adf = adf' })
    ]

unfoldable pub tdifw_driver_unload : Driver → M Driver
tdifw_driver_unload d = do
  let d' = delete_device d
  adf ← unload_cfg d'.adf
  pure (record d' { adf = adf })
