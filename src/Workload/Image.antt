-- ===== src/Workload/Image.antt =====
-- go/internal/operator/workload_controller.go: `ResolvedImageRef`.
use boilerhouse.Common.{String, ◌==◌, ◌<>◌, if◌then◌else◌}
use boilerhouse.Types.Workload.{Workload}

unfoldable pub resolved_image_ref : Workload → String
resolved_image_ref wl =
    if wl.spec.image.dockerfile == ""
    then wl.spec.image.ref
    else "boilerhouse/" <> wl.meta.name <> ":" <> wl.spec.version
