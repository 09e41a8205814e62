-- ===== src/Docker/Images.antt =====
-- How `DockerService._pull` takes an image reference apart.
use linuxmuster_radius.Prelude.{Option, none, some, Text, has, partition, rpartition, if◌then◌else◌}

-- `image.rsplit("/", 1)[-1]`
unfoldable pub last_segment : Text → Text
unfolding rpartition
last_segment image = if has b'/' image then (rpartition b'/' image).1 else image

-- The repository and the tag that `images.pull` is called with.
unfoldable pub pull_args : Text → Text × Option Text
unfolding last_segment partition rpartition
pull_args image =
    if has b'@' image
    then ((partition b'@' image).0, some (partition b'@' image).1)
    else if has b':' (last_segment image)
    then ((rpartition b':' image).0, some (rpartition b':' image).1)
    else (image, none)
