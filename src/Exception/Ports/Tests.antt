-- ===== src/Exception/Ports/Tests.antt =====
-- `Save` and `Restore` on a kernel that keeps a handler for each exception.
use debug_learning.Prelude.{◌≡◌, refl}
use debug_learning.Exception.Ports.{PortInfo, save, restore}
use debug_learning.Exception.Ports.Returning.{restore-save}
use debug_learning.Exception.Ports.Sample.{kernel, kernel-HandlerLaws, before, during, no_ports}

abbrev saved : PortInfo
saved = (save kernel 0x3bfe 9 no_ports before).1

restore-save_example : (restore kernel 9 saved during).2 5 ≡ (105, 1, 5)
unfolding save restore
restore-save_example =
    restore-save kernel-HandlerLaws 9 5 0x3bfe no_ports before during refl refl refl
